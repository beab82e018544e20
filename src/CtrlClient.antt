-- ===== src/CtrlClient.antt =====
-- vwifi-ctrl.cc: the client's side of the orders, on a connection `d` to the control server, and
-- the reading of their words. What is displayed is the result.
pub mod Words
pub mod Bytes
pub mod Answers
pub mod Sent
pub mod Lists
pub mod Shown
use vwifi.Prelude.{
  ℕ, zero, suc, ◌+◌, ◌*◌, ◌-◌, ◌%◌, ◌^◌, Bool, Option, none, some, List, [], ◌∷◌, ◌++◌, ltb, ◌==◌,
  if◌then◌else◌, length, take,
}
use vwifi.Prelude.Int.{ℤ, pos, negsuc, pos_part, ltb_ℤ}
use vwifi.Prelude.Bytes.{of_le, signed}
use vwifi.Platform.{Platform, Net, closed}
use vwifi.Info.{
  Coordinate, InfoWifi, new_info_wifi, set_cid, set_coordinate, set_name, max_size_name,
}
use vwifi.Socket.{read, send, write_at}
use vwifi.Ctrl.Orders.{Order}
use vwifi.Ctrl.{u32_bytes, s32_bytes, coordinate_bytes, coordinate_of, c_string, zero_coordinate}

-- The outer `none` is a failed assertion or a read outside a buffer, the inner one a `return 1`.
abbrev pub Ask : Platform → Type 0 → Type 0
Ask p A = Net p → Option (Option A × Net p)

abbrev pub code : Order → ℕ
code Order.no = 0
code Order.list = 1
code Order.show = 2
code Order.change_coordinate = 3
code Order.set_name = 4
code Order.packet_loss = 5
code Order.status = 6
code Order.distance_between_cid = 7
code Order.set_scale = 8
code Order.close_all_client = 9
code Order.other = 10

module _ {p : Platform} where
  infixl 5 ◌>>=◌ ◌>>◌
  unfoldable pub ◌>>=◌ : {A B : Type 0} → Ask p A → (A → Ask p B) → Ask p B
  ◌>>=◌ m f n = elim (m n) [
    | none ↦ none
    | some (none, n') ↦ some (none, n')
    | some (some a, n') ↦ f a n'
  ]

  abbrev pub ◌>>◌ : {B : Type 0} → Ask p (Unit {0}) → Ask p B → Ask p B
  m >> k = m >>= λ _. k

  abbrev pub pure : {A : Type 0} → A → Ask p A
  pure a n = some (some a, n)

  abbrev pub return_1 : {A : Type 0} → Ask p A
  return_1 n = some (none, n)

  abbrev pub checked : {A : Type 0} → Option A → Ask p A
  checked none n = none
  checked (some a) n = some (some a, n)

  -- The destructor of the socket, which closes it at a `return 1`, is in `on_connection`.
  unfoldable pub ask_send : ℕ → List ℕ → Ask p (Unit {0})
  ask_send d bytes n =
      let (ret, n') = send p d bytes n in
      elim ret [ none ↦ some (none, n') | some _ ↦ some (some tt, n') ]

  -- A read into a variable whose bytes are `old`.
  unfoldable pub ask_read_over : ℕ → List ℕ → Ask p (List ℕ)
  ask_read_over d old n =
      let (ret, w) = read p d (length old) n.world in
      let n' : Net p = record n { world = w } in
      elim ret [ none ↦ some (none, n') | some bs ↦ some (some (write_at 0 bs old), n') ]

  -- A read of `size` bytes into a variable that nothing has written.
  unfoldable pub ask_read : ℕ → ℕ → Ask p (List ℕ)
  ask_read d size n =
      let (ret, w) = read p d size n.world in
      let n' : Net p = record n { world = w } in
      elim ret [
        | none ↦ some (none, n')
        | some bs ↦ some (some (write_at 0 bs (p.uninit size n.world)), n')
      ]

  unfoldable pub close_connection : ℕ → Ask p (Unit {0})
  close_connection d n =
      some (some tt, record n { world = p.close d n.world; calls = n.calls ++ closed d ∷ [] })

  -- The name behind an entry, in a buffer of 13 bytes.
  unfoldable pub get_name : ℕ → ℤ → Ask p (List ℕ)
  get_name d size n =
      let fresh = p.uninit (suc max_size_name) n.world in
      let (ret, w) = read p d (suc (pos_part size)) n.world in
      let n' : Net p = record n { world = w } in
      if ltb_ℤ (pos 0) size
      then (elim ret [ none ↦ some (none, n') | some bs ↦ some (some (write_at 0 bs fresh), n') ])
      else some (some (write_at 0 (0 ∷ []) fresh), n)

  -- GetCInfoWifi up to the changes of `infoWifi`: `return 1` leaves it as it was.
  unfoldable pub get_c_info_wifi : ℕ → Ask p InfoWifi
  get_c_info_wifi d = do
    cid ← ask_read d 4
    coo ← ask_read_over d zero_coordinate
    size_bytes ← ask_read d 4
    let size = signed 32 (of_le size_bytes)
    str_name ← if ltb_ℤ (pos max_size_name) size then return_1 else get_name d size
    info ← checked (set_cid (of_le cid) new_info_wifi)
    name ← checked (c_string str_name)
    pure (set_name name (set_coordinate (coordinate_of coo) info))

  -- The result 1 of GetCInfoWifi is not the error that AskList tests for: the entry before is
  -- displayed again.
  unfoldable pub get_or_keep : ℕ → InfoWifi → Ask p InfoWifi
  get_or_keep d info n = elim (get_c_info_wifi d n) [
    | none ↦ none
    | some (none, n') ↦ some (some info, n')
    | some (some info', n') ↦ some (some info', n')
  ]

  -- The loops of AskList: what is displayed, and the entry left in `info`.
  unfoldable pub get_infos : ℕ → ℕ → InfoWifi → Ask p (List InfoWifi × InfoWifi)
  get_infos zero d info = pure ([], info)
  get_infos (suc number) d info = do
    info' ← get_or_keep d info
    (infos, last) ← get_infos number d info'
    pure (info' ∷ infos, last)

  unfoldable pub ask_list : ℕ → Ask p (List InfoWifi × List InfoWifi)
  ask_list d = do
    ask_send d (u32_bytes (code Order.list))
    number ← ask_read d 4
    (spies, info) ← get_infos (of_le number) d new_info_wifi
    number' ← ask_read_over d number
    (clients, _) ← get_infos (of_le number') d info
    close_connection d
    pure (spies, clients)

  unfoldable pub ask_change_coordinate : ℕ → ℕ → Coordinate → Ask p (Unit {0})
  ask_change_coordinate d cid coo = do
    ask_send d (u32_bytes (code Order.change_coordinate))
    ask_send d (u32_bytes cid)
    ask_send d (coordinate_bytes coo)
    close_connection d

  unfoldable pub ask_set_name : ℕ → ℕ → List ℕ → Ask p (Unit {0})
  ask_set_name d cid word = do
    let name = if ltb max_size_name (length word) then take max_size_name word else word
    ask_send d (u32_bytes (code Order.set_name))
    ask_send d (u32_bytes cid)
    ask_send d (s32_bytes (pos (length name)))
    ask_send d (name ++ 0 ∷ [])
    close_connection d

  unfoldable pub ask_packet_loss : ℕ → Bool → Ask p (Unit {0})
  ask_packet_loss d value = do
    ask_send d (u32_bytes (code Order.packet_loss))
    ask_send d (s32_bytes (pos (if value then 1 else 0)))
    close_connection d

  -- `bool` variables are told by their byte.
  unfoldable pub ask_status : ℕ → Ask p (ℕ × p.Real × ℕ × ℕ × ℕ × ℕ)
  ask_status d = do
    ask_send d (u32_bytes (code Order.status))
    loss ← ask_read d 1
    scale ← ask_read d 8
    port_vhost ← ask_read d 2
    port_inet ← ask_read_over d port_vhost
    size ← ask_read d 4
    spy ← ask_read d 1
    close_connection d
    pure (of_le loss, p.of_bytes scale, of_le port_vhost, of_le port_inet, of_le size, of_le spy)

  -- AskShow up to its AskList, which makes a connection of its own.
  unfoldable pub ask_show : ℕ → Ask p (ℕ × p.Real × ℕ)
  ask_show d = do
    ask_send d (u32_bytes (code Order.show))
    loss ← ask_read d 1
    scale ← ask_read d 8
    spy ← ask_read d 1
    close_connection d
    pure (of_le loss, p.of_bytes scale, of_le spy)

  unfoldable pub read_distance : ℕ → List ℕ → Ask p p.Real
  read_distance d error = elim (signed 32 (of_le error)) [
    | negsuc zero ↦ return_1
    | negsuc (suc zero) ↦ return_1
    | _ ↦ do distance ← ask_read d 8; close_connection d; pure (p.of_bytes distance)
  ]

  unfoldable pub ask_distance : ℕ → ℕ → ℕ → Ask p p.Real
  ask_distance d cid1 cid2 = do
    ask_send d (u32_bytes (code Order.distance_between_cid))
    ask_send d (u32_bytes cid1)
    ask_send d (u32_bytes cid2)
    error ← ask_read d 4
    read_distance d error

  unfoldable pub ask_scale : ℕ → p.Real → Ask p (Unit {0})
  ask_scale d scale = do
    ask_send d (u32_bytes (code Order.set_scale))
    ask_send d (p.to_bytes scale)
    close_connection d

  unfoldable pub ask_close_all_client : ℕ → Ask p (Unit {0})
  ask_close_all_client d = do
    ask_send d (u32_bytes (code Order.close_all_client))
    close_connection d
