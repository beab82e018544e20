-- ===== src/Ctrl/Orders.antt =====
-- TOrder of types.h: the orders that vwifi-ctrl sends to the control server.
use vwifi.Prelude.{ℕ, ◌==◌, if◌then◌else◌}

-- TOrder of types.h; `other` is any value that the enumeration does not name.
pub data Order : Type 0 where
  no list show change_coordinate set_name packet_loss status distance_between_cid set_scale : Order
  close_all_client other : Order

unfoldable pub order_of : ℕ → Order
order_of n =
    if n == 0
    then Order.no
    else if n == 1
    then Order.list
    else if n == 2
    then Order.show
    else if n == 3
    then Order.change_coordinate
    else if n == 4
    then Order.set_name
    else if n == 5
    then Order.packet_loss
    else if n == 6
    then Order.status
    else if n == 7
    then Order.distance_between_cid
    else if n == 8
    then Order.set_scale
    else if n == 9
    then Order.close_all_client
    else Order.other
