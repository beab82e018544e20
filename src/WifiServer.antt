-- ===== src/WifiServer.antt =====
-- csocketserver.cc and cwifiserver.cc: the clients of a server. A CWifiServer is given with the
-- lists that its pointers lead to; entry i of both lists is client i. `none` is a failed assertion
-- or a read outside a vector.
pub mod Registry
pub mod Closing
pub mod Reconnect
pub mod Effects
pub mod Sending
pub mod Lossy
pub mod Owned
pub mod Copied
use vwifi.Prelude.{
  ℕ, zero, suc, ◌+◌, Bool, Option, none, some, ◌>>=◌, ◌>>◌, assert, List, [], ◌∷◌, ◌++◌, ltb, ◌==◌,
  if◌then◌else◌, length, get_elem?, erase_at,
}
use vwifi.Prelude.Int.{ℤ, pos, ◌-ℤ◌}
use vwifi.Platform.{Platform, Net}
use vwifi.Info.{
  Coordinate, InfoWifi, InfoSocket, set_descriptor, disable_it, close_socket, new_info_wifi,
  set_cid, set_name, set_coordinate, distance_with,
}
use vwifi.Wifi.{get_frequency, attenuation, bounded_power, packet_is_lost, send_signal}

pub record WifiServer : Type 0 where
  pub max_client_deconnected : ℕ
  pub info_sockets : List InfoSocket
  pub info_wifis : List InfoWifi
  pub info_wifis_deconnected : List InfoWifi

-- The server after `Listen`, before any client.
unfoldable pub listen : ℕ → WifiServer
listen max = record {
  max_client_deconnected = max;
  info_sockets = [];
  info_wifis = [];
  info_wifis_deconnected = [];
}

abbrev pub get_number_client : WifiServer → ℕ
get_number_client s = length s.info_sockets

unfoldable pub get_socket_client : ℕ → WifiServer → Option ℕ
get_socket_client i s = do socket ← get_elem? s.info_sockets i; some socket.descriptor

unfoldable pub is_enable : ℕ → WifiServer → Option Bool
is_enable i s = do socket ← get_elem? s.info_sockets i; some socket.enable

unfoldable pub recover_infos_of_info_wifi_deconnected :
    ℕ → List InfoWifi → Option ((Coordinate × List ℕ) × List InfoWifi)
recover_infos_of_info_wifi_deconnected cid [] = none
recover_infos_of_info_wifi_deconnected cid (w ∷ ws) =
    let rest = (do
      (found, ws') ← recover_infos_of_info_wifi_deconnected cid ws
      some (found, w ∷ ws')) in
    if w.cid == cid then some ((w.coordinate, w.name), ws) else rest

-- The loop keeps both lists in step; the sockets are one longer, by the client being accepted.
unfoldable pub recover_infos_of_info_wifi :
    ℕ → List InfoSocket → List InfoWifi → Option (Option (Coordinate × List ℕ) × List InfoSocket)
recover_infos_of_info_wifi cid ss [] = some (none, ss)
recover_infos_of_info_wifi cid [] (w ∷ ws) = none
recover_infos_of_info_wifi cid (s ∷ ss) (w ∷ ws) =
    let rest = (do (found, ss') ← recover_infos_of_info_wifi cid ss ws; some (found, s ∷ ss')) in
    if s.enable
    then if w.cid == cid then some (some (w.coordinate, w.name), disable_it s ∷ ss) else rest
    else rest

-- The two calls that `Accept` joins by `||`.
unfoldable pub recover_infos : ℕ → WifiServer → Option (Option (Coordinate × List ℕ) × WifiServer)
recover_infos cid s = elim (recover_infos_of_info_wifi_deconnected cid s.info_wifis_deconnected) [
  | some (found, rest) ↦ some (some found, record s { info_wifis_deconnected = rest })
  | none ↦ do
    (found, ss) ← recover_infos_of_info_wifi cid s.info_sockets s.info_wifis
    some (found, record s { info_sockets = ss })
]

abbrev pub with_infos : Option (Coordinate × List ℕ) → InfoWifi
with_infos none = new_info_wifi
with_infos (some (coo, name)) = set_name name (set_coordinate coo new_info_wifi)

-- CWifiServer::Accept, from the descriptor and the CID that `_Accept` gives.
unfoldable pub accept : ℕ → ℕ → WifiServer → Option WifiServer
accept new_socket cid s = do
  socket ← set_descriptor (pos new_socket)
  (found, s') ← recover_infos cid (record s { info_sockets = s.info_sockets ++ socket ∷ [] })
  info_wifi ← set_cid cid (with_infos found)
  some (record s' { info_wifis = s'.info_wifis ++ info_wifi ∷ [] })

-- Erasing the first of no entries is undefined.
unfoldable pub add_info_wifi_deconnected : InfoWifi → WifiServer → Option WifiServer
add_info_wifi_deconnected w s =
    let push = λ (ws : List InfoWifi). record s { info_wifis_deconnected = ws ++ w ∷ [] } in
    if ltb (length s.info_wifis_deconnected) s.max_client_deconnected
    then some (push s.info_wifis_deconnected)
    else (elim s.info_wifis_deconnected [ [] ↦ none | _ ∷ ws ↦ some (push ws) ])

-- The first entry with the CID, as the pointer that the code returns.
unfoldable pub find_cid : ℕ → List InfoWifi → Option ℕ
find_cid cid [] = none
find_cid cid (w ∷ ws) =
    let rest = (do i ← find_cid cid ws; some (suc i)) in if w.cid == cid then some zero else rest

module _ (p : Platform) where
  -- The level at which one client hears another.
  -- The level at a frequency.
  abbrev pub level_at : p.Real → ℤ → ℕ → Coordinate → InfoWifi → ℤ
  level_at scale power frequency coo w =
      bounded_power (power -ℤ attenuation p (distance_with p scale coo w.coordinate) frequency)

  unfoldable pub signal_level : p.Real → ℤ → List ℕ → Coordinate → InfoWifi → Option ℤ
  signal_level scale power bytes coo w = do
    frequency ← get_frequency p bytes
    some (level_at scale power frequency coo w)

module _ {p : Platform} where
  unfoldable pub close_client : ℕ → WifiServer → Net p → Option (WifiServer × Net p)
  close_client index s n = do
    assert (ltb index (get_number_client s))
    socket ← get_elem? s.info_sockets index
    let n' = (close_socket socket n).1
    info_wifi ← get_elem? s.info_wifis index
    s' ←
        add_info_wifi_deconnected info_wifi
          (record s { info_sockets = erase_at s.info_sockets index })
    some (record s' { info_wifis = erase_at s'.info_wifis index }, n')

  -- The loop of `CloseAllClient`, over the rounds left.
  unfoldable pub close_clients : ℕ → WifiServer → Net p → Option (WifiServer × Net p)
  close_clients zero s n = some (s, n)
  close_clients (suc rounds) s n = do (s', n') ← close_client 0 s n; close_clients rounds s' n'

  unfoldable pub close_all_client : WifiServer → Net p → Option (WifiServer × Net p)
  close_all_client s n = close_clients (get_number_client s) s n

  -- A loop over the clients by index, of which each round may change its own entry.
  unfoldable pub each_client :
      (ℕ → InfoSocket → Net p → Option (InfoSocket × Net p))
      → ℕ
      → List InfoSocket
      → Net p
      → Option (List InfoSocket × Net p)
  each_client visit i [] n = some ([], n)
  each_client visit i (s ∷ ss) n = do
    (s', n₁) ← visit i s n
    (ss', n₂) ← each_client visit (suc i) ss n₁
    some (s' ∷ ss', n₂)

  abbrev pub with_sockets :
      WifiServer → Option (List InfoSocket × Net p) → Option (WifiServer × Net p)
  with_sockets s r = do (ss, n) ← r; some (record s { info_sockets = ss }, n)

  -- `if( SendSignal(…) < 0 ) DisableIt()`.
  unfoldable pub send_or_disable : ℤ → List ℕ → InfoSocket → Net p → InfoSocket × Net p
  send_or_disable power bytes socket n =
      let (val, n') = send_signal p socket.descriptor power bytes n in
      (elim val [ none ↦ disable_it socket | some _ ↦ socket ], n')

  unfoldable pub send_all_clients_without_loss :
      ℤ → List ℕ → WifiServer → Net p → Option (WifiServer × Net p)
  send_all_clients_without_loss power bytes s n = with_sockets s (
      each_client
        (λ i socket n.
          if socket.enable then some (send_or_disable power bytes socket n) else some (socket, n))
        0 s.info_sockets n)

  unfoldable pub send_all_other_clients_without_loss :
      ℕ → ℤ → List ℕ → WifiServer → Net p → Option (WifiServer × Net p)
  send_all_other_clients_without_loss index power bytes s n = with_sockets s (
      each_client
        (λ i socket n.
          if i == index
          then some (socket, n)
          else if socket.enable
          then some (send_or_disable power bytes socket n)
          else some (socket, n))
        0 s.info_sockets n)

  -- `! CanLostPackets || ! PacketIsLost(signalLevel)`, then the sending.
  unfoldable pub send_unless_lost : Bool → ℤ → List ℕ → InfoSocket → Net p → InfoSocket × Net p
  send_unless_lost can_lost_packets level bytes socket n =
      let (lost, w) = packet_is_lost p level n.world in
      if can_lost_packets
      then if lost
        then (socket, record n { world = w })
        else send_or_disable level bytes socket (record n { world = w })
      else send_or_disable level bytes socket n

  -- `Scale` and `CanLostPackets` are global variables of the program.
  unfoldable pub send_all_other_clients :
      p.Real → Bool → ℕ → ℤ → List ℕ → WifiServer → Net p → Option (WifiServer × Net p)
  send_all_other_clients scale can_lost_packets index power bytes s n = do
    sender ← get_elem? s.info_wifis index
    with_sockets s (
        each_client
          (λ i socket n.
            if i == index
            then some (socket, n)
            else if socket.enable
            then (do
              w ← get_elem? s.info_wifis i
              level ← signal_level p scale power bytes sender.coordinate w
              some (send_unless_lost can_lost_packets level bytes socket n))
            else some (socket, n))
          0 s.info_sockets n)
