-- ===== src/Commands.antt =====
-- What the orders of vwifi-ctrl.cc that change the server are to do to it, told apart from the bytes
-- on the wire: `ask` is what vwifi-ctrl does for one, `obey` what is to become of the server.
pub mod Said
pub mod Obeyed
pub mod Served
use vwifi.Prelude.{
  ℕ, Bool, Option, none, some, List, [], ◌∷◌, ◌++◌, ltb, if◌then◌else◌, length, take, All, ◌<◌, ◌≡◌,
  ◌^◌,
}
use vwifi.Prelude.Int.{pos}
use vwifi.Prelude.Bytes.{FitsS32}
use vwifi.Platform.{Platform}
use vwifi.Info.{Coordinate, tcid_guest_min, max_size_name}
use vwifi.Server.{Server}
use vwifi.Ctrl.{
  place, rename, close_clients_and_spies, close_ctrl_client, state_of, u32_bytes, s32_bytes,
  coordinate_bytes,
}
use vwifi.Ctrl.Orders.{Order}
use vwifi.CtrlClient.{
  Ask, code, ask_change_coordinate, ask_set_name, ask_packet_loss, ask_scale, ask_close_all_client,
}
use vwifi.CtrlClient.Bytes.{NonZero}

-- An order with its words; the scale is a number of the machine that asks.
pub data Command (q : Platform) : Type 0 where
  place_at : ℕ → Coordinate → Command q
  name_as : ℕ → List ℕ → Command q
  lose_packets : Bool → Command q
  scale_to : q.Real → Command q
  close_all : Command q

-- The words fit the variables that carry them.
abbrev pub IsCarried : {q : Platform} → Command q → Type 0
IsCarried (place_at cid coo) = (cid < 2 ^ 32) × FitsS32 coo.x × FitsS32 coo.y × FitsS32 coo.z
IsCarried (name_as cid word) = (cid < 2 ^ 32) × All NonZero word
IsCarried (lose_packets b) = Unit
IsCarried {q} (scale_to scale) = length (q.to_bytes scale) ≡ 8
IsCarried close_all = Unit

abbrev pub order : {q : Platform} → Command q → Order
order (place_at cid coo) = Order.change_coordinate
order (name_as cid word) = Order.set_name
order (lose_packets b) = Order.packet_loss
order (scale_to scale) = Order.set_scale
order close_all = Order.close_all_client

abbrev pub ask : {q : Platform} → ℕ → Command q → Ask q (Unit {0})
ask d (place_at cid coo) = ask_change_coordinate d cid coo
ask d (name_as cid word) = ask_set_name d cid word
ask d (lose_packets b) = ask_packet_loss d b
ask d (scale_to scale) = ask_scale d scale
ask d close_all = ask_close_all_client d

-- The words on the wire, behind the order.
abbrev pub word_bytes : {q : Platform} → Command q → List ℕ
word_bytes (place_at cid coo) = u32_bytes cid ++ coordinate_bytes coo
word_bytes (name_as cid word) =
    let name = take max_size_name word in
    u32_bytes cid ++ (s32_bytes (pos (length name)) ++ (name ++ 0 ∷ []))
word_bytes (lose_packets b) = s32_bytes (pos (if b then 1 else 0))
word_bytes {q} (scale_to scale) = q.to_bytes scale
word_bytes close_all = []

abbrev pub command_bytes : {q : Platform} → Command q → List ℕ
command_bytes c = u32_bytes (code (order c)) ++ word_bytes c

module _ {p q : Platform} where
  -- The CIDs below those of guests are passed over; a name is cut at the longest that is kept.
  unfoldable pub obey : Command q → Server p → Option (Server p)
  obey (place_at cid coo) s =
      if ltb cid tcid_guest_min then some s else (elim (place cid coo s.clients) [
        | none ↦ none
        | some clients ↦ some (record s { clients = clients })
      ])
  obey (name_as cid word) s =
      let (clients, spies) = rename cid (take max_size_name word) s.clients s.spies in
      some (if ltb cid tcid_guest_min then s else record s { clients = clients; spies = spies })
  obey (lose_packets b) s = some (record s { can_lost_packets = b })
  obey (scale_to scale) s = some (record s { scale = p.of_bytes (q.to_bytes scale) })
  obey close_all s = state_of (close_clients_and_spies s)

-- The connection of the order is closed behind it.
abbrev pub hang_up : {p : Platform} → Option (Server p) → Option (Server p)
hang_up none = none
hang_up (some s) = state_of (close_ctrl_client s)
