-- ===== src/Radio/Connecting.antt =====
-- cwificlient.h, _Connect, and ckernelwifi.cc, reconnect_to_server, manage_server_crash_loop and
-- the part of start that connects.
use vwifi.Prelude.{ℕ, zero, suc, Bool, true, false, not, ◌&&◌, Option, none, some, if◌then◌else◌}
use vwifi.Prelude.Int.{pos_part}
use vwifi.Platform.{Platform}
use vwifi.Select.{add_node}
use vwifi.Client.{close, connect, get_id}
use vwifi.Kernel.{Kernel}
use vwifi.Radio.{Radio, with_world}
use vwifi.Radio.Netlink.{dead}

module _ {p : Platform} (k : Kernel p) (hash_uses_port : Bool) where
  -- CWifiClient::_Connect behind the connection: the descriptor becomes another node.
  unfoldable pub enroll : Radio p → Radio p
  enroll r =
      let (id, n) = get_id k hash_uses_port r.client r.net in
      record r { net = n; scheduler = add_node (pos_part r.client.master) r.scheduler }

  unfoldable pub connect_radio : Radio p → Bool × Radio p
  connect_radio r =
      let (ok, client, n) = connect k r.client r.net in
      let r' : Radio p = record r { client = client; net = n } in
      if ok then (true, enroll r') else (false, r')

  unfoldable pub reconnect_to_server : Radio p → Bool × Radio p
  reconnect_to_server r =
      let (client, n) = close r.client r.net in
      connect_radio (record r { client = client; net = n })

  -- A round of manage_server_crash_loop: whether the loop goes on.
  unfoldable pub reconnect_if_lost : Radio p → Radio p
  reconnect_if_lost r =
      let (ok, r') = reconnect_to_server r in
      if r.connected_to_server
      then r
      else if ok
      then record r' { connected_to_server = true }
      else r'

  unfoldable pub manage_server_crash_round : Radio p → Bool × Radio p
  manage_server_crash_round r =
      let r' = reconnect_if_lost r in
      if k.interrupted r.net.world
      then (false, dead r)
      else (true, with_world (k.sleep 1 r'.net.world) r')

  -- The first rounds of the loop.
  unfoldable pub manage_server_crash_rounds : ℕ → Radio p → Radio p
  manage_server_crash_rounds zero r = r
  manage_server_crash_rounds (suc n) r =
      let (on, r') = manage_server_crash_round r in
      let rest = manage_server_crash_rounds n r' in if on then rest else r'

  unfoldable pub is_being_started : Radio p → Bool
  is_being_started r = r.being_started && not (k.start_stopped r.net.world)

  -- The loop of `start`: whether it connected. `none` means that the fuel ran out.
  unfoldable pub connect_first : ℕ → Radio p → Option (Bool × Radio p)
  connect_first zero r = none
  connect_first (suc fuel) r =
      let (ok, r') = connect_radio r in
      let rest = connect_first fuel (with_world (k.sleep 2 r'.net.world) r') in
      if ok
      then some (true, record r' { connected_to_server = true })
      else if is_being_started r'
      then rest
      else some (false, r')
