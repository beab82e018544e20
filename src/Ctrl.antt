-- ===== src/Ctrl.antt =====
-- cctrlserver.cc: the orders of vwifi-ctrl. A handler reads from and writes to the one client of
-- the control socket; it may return early, and the process may stop at a failed assertion.
pub mod Handlers
pub mod Orders
pub mod Safety
pub mod Edits
pub mod Serving
use Orders.{Order, order_of}
unfoldable pub use Handlers.{
  ◌>>=◌, ctrl_client, ctrl_read, ctrl_read_over, ctrl_send, coordinate_bytes, coordinate_of,
  c_string,
}
pub use Handlers.{
  zero_coordinate, Handler, ◌>>◌, pure, return_early, checked, get_state, put_state, u32_bytes,
  s32_bytes, bool_bytes, change_at, change_connected, change_deconnected,
}
use vwifi.Prelude.{
  ℕ, zero, suc, ◌+◌, ◌%◌, ◌^◌, Bool, true, false, not, ◌||◌, Option, none, some, List, [], ◌∷◌,
  ◌++◌, ltb, leb, ◌==◌, if◌then◌else◌, length, get_elem?, set, drop, assert, erase_at, take,
}
use vwifi.Prelude.Int.{ℤ, pos, negsuc}
use vwifi.Prelude.Bytes.{le, of_le, signed, pattern_of}
use vwifi.Platform.{Platform, Net}
use vwifi.Tools.{hash_ipaddr}
use vwifi.Select.{Select, del_node}
use vwifi.Info.{
  Coordinate, InfoWifi, InfoSocket, set_descriptor, close_socket, set_coordinate, set_name,
  info_wifi, distance_with, tcid_guest_min, max_size_name,
}
use vwifi.Socket.{read, send, write_at}
use vwifi.WifiServer.{
  WifiServer, get_number_client, get_socket_client, is_enable, close_all_client, find_cid,
  add_info_wifi_deconnected,
}
use vwifi.Server.{Server}

-- What ChangeCoordinate does with the lists, once the order is read.
unfoldable pub place : ℕ → Coordinate → WifiServer → Option WifiServer
place cid coo s = elim (find_cid cid s.info_wifis) [
  | some i ↦ some (change_connected (set_coordinate coo) i s)
  | none ↦ elim (find_cid cid s.info_wifis_deconnected) [
    | some i ↦ some (change_deconnected (set_coordinate coo) i s)
    | none ↦ elim (info_wifi cid coo) [ none ↦ none | some w ↦ add_info_wifi_deconnected w s ]
  ]
]

-- What SetName does with both servers: the remembered spies are not looked at.
unfoldable pub rename : ℕ → List ℕ → WifiServer → WifiServer → WifiServer × WifiServer
rename cid name clients spies = elim (find_cid cid clients.info_wifis) [
  | some i ↦ (change_connected (set_name name) i clients, spies)
  | none ↦ elim (find_cid cid clients.info_wifis_deconnected) [
    | some i ↦ (change_deconnected (set_name name) i clients, spies)
    | none ↦ elim (find_cid cid spies.info_wifis) [
      | some i ↦ (clients, change_connected (set_name name) i spies)
      | none ↦ (clients, spies)
    ]
  ]
]

-- The coordinate that SendDistance uses for a CID.
unfoldable pub locate : ℕ → WifiServer → Option InfoWifi
locate cid s = elim (find_cid cid s.info_wifis) [
  | some i ↦ get_elem? s.info_wifis i
  | none ↦ elim (find_cid cid s.info_wifis_deconnected) [
    | some i ↦ get_elem? s.info_wifis_deconnected i
    | none ↦ none
  ]
]

-- The deletion of the nodes of all clients, one after another.
abbrev pub del_nodes : List InfoSocket → Select → Select
del_nodes [] scheduler = scheduler
del_nodes (s ∷ ss) scheduler = del_nodes ss (del_node s.descriptor scheduler)

module _ {p : Platform} where
  unfoldable pub get_order : Server p → Option (Order × Server p)
  get_order s =
      if length s.ctrl_sockets == 1
      then (elim (ctrl_read 4 s) [
        | none ↦ none
        | some (none, s') ↦ some (Order.no, s')
        | some (some bytes, s') ↦ some (order_of (of_le bytes), s')
      ])
      else some (Order.no, s)

  -- An error makes the caller return too.
  unfoldable pub send_info_wifi : InfoWifi → Handler p (Unit {0})
  send_info_wifi w = do
    ctrl_send (u32_bytes w.cid)
    ctrl_send (coordinate_bytes w.coordinate)
    ctrl_send (u32_bytes (length w.name))
    if ltb 0 (length w.name) then ctrl_send (w.name ++ 0 ∷ []) else pure tt

  -- The loop of `SendList` from client `i` on.
  unfoldable pub send_infos : List InfoWifi → ℕ → List InfoSocket → Handler p (Unit {0})
  send_infos ws i [] = pure tt
  send_infos ws i (s ∷ ss) = do
    if s.enable then (do w ← checked (get_elem? ws i); send_info_wifi w) else pure tt
    send_infos ws (suc i) ss

  unfoldable pub send_server_list : WifiServer → Handler p (Unit {0})
  send_server_list s = do
    ctrl_send (u32_bytes (get_number_client s))
    send_infos s.info_wifis 0 s.info_sockets

  unfoldable pub send_list : Handler p (Unit {0})
  send_list = do s ← get_state; send_server_list s.spies; send_server_list s.clients

  unfoldable pub change_coordinate : Handler p (Unit {0})
  change_coordinate = do
    cid_bytes ← ctrl_read 4
    coo_bytes ← ctrl_read_over zero_coordinate
    let cid = of_le cid_bytes
    s ← get_state
    if ltb cid tcid_guest_min then return_early else (do
      clients ← checked (place cid (coordinate_of coo_bytes) s.clients)
      put_state (record s { clients = clients }))

  -- The size of the name is read and not used.
  unfoldable pub change_name : Handler p (Unit {0})
  change_name = do
    cid_bytes ← ctrl_read 4
    size_name ← ctrl_read 4
    str_name ← ctrl_read (suc max_size_name)
    let cid = of_le cid_bytes
    s ← get_state
    if ltb cid tcid_guest_min then return_early else (do
      name ← checked (c_string str_name)
      let (clients, spies) = rename cid name s.clients s.spies
      put_state (record s { clients = clients; spies = spies }))

  unfoldable pub change_packet_loss : Handler p (Unit {0})
  change_packet_loss = do
    value ← ctrl_read 4
    s ← get_state
    put_state (record s { can_lost_packets = if of_le value == 0 then false else true })

  unfoldable pub send_status : Handler p (Unit {0})
  send_status = do
    s ← get_state
    ctrl_send (bool_bytes s.can_lost_packets)
    ctrl_send (p.to_bytes s.scale)
    ctrl_send (le 2 s.endpoints.port_vtcp)
    ctrl_send (le 2 s.endpoints.port_itcp)
    ctrl_send (u32_bytes s.clients.max_client_deconnected)
    ctrl_send (bool_bytes (ltb 0 (get_number_client s.spies)))

  unfoldable pub send_show : Handler p (Unit {0})
  send_show = do
    s ← get_state
    ctrl_send (bool_bytes s.can_lost_packets)
    ctrl_send (p.to_bytes s.scale)
    ctrl_send (bool_bytes (ltb 0 (get_number_client s.spies)))

  -- The answer of SendDistance, from the two clients that were found.
  unfoldable pub send_distance_of : Option InfoWifi → Option InfoWifi → Handler p (Unit {0})
  send_distance_of none w2 = ctrl_send (s32_bytes (negsuc 0))
  send_distance_of (some w1) none = ctrl_send (s32_bytes (negsuc 1))
  send_distance_of (some w1) (some w2) = do
    s ← get_state
    ctrl_send (s32_bytes (pos 0))
    ctrl_send (p.to_bytes (distance_with p s.scale w1.coordinate w2.coordinate))

  unfoldable pub send_distance : Handler p (Unit {0})
  send_distance = do
    cid1 ← ctrl_read 4
    cid2 ← ctrl_read 4
    s ← get_state
    send_distance_of (locate (of_le cid1) s.clients) (locate (of_le cid2) s.clients)

  unfoldable pub change_scale : Handler p (Unit {0})
  change_scale = do
    bytes ← ctrl_read 8
    s ← get_state
    put_state (record s { scale = p.of_bytes bytes })

  unfoldable pub close_clients_and_spies : Handler p (Unit {0})
  close_clients_and_spies = do
    s ← get_state
    (clients, n₁) ← checked (close_all_client s.clients s.net)
    (spies, n₂) ← checked (close_all_client s.spies n₁)
    put_state (record s {
      clients = clients;
      spies = spies;
      scheduler = del_nodes s.spies.info_sockets (del_nodes s.clients.info_sockets s.scheduler);
      net = n₂;
    })

  unfoldable pub handle : Order → Handler p (Unit {0})
  handle Order.no = pure tt
  handle Order.list = send_list
  handle Order.show = send_show
  handle Order.change_coordinate = change_coordinate
  handle Order.set_name = change_name
  handle Order.packet_loss = change_packet_loss
  handle Order.status = send_status
  handle Order.distance_between_cid = send_distance
  handle Order.set_scale = change_scale
  handle Order.close_all_client = close_clients_and_spies
  handle Order.other = pure tt

  -- `CSocketServer::CloseClient(0)` of the control server.
  unfoldable pub close_ctrl_client : Handler p (Unit {0})
  close_ctrl_client = do
    s ← get_state
    socket ← checked (get_elem? s.ctrl_sockets 0)
    put_state
        (record s { ctrl_sockets = erase_at s.ctrl_sockets 0; net = (close_socket socket s.net).1 })

  abbrev pub state_of : {A : Type 0} → Option (Option A × Server p) → Option (Server p)
  state_of none = none
  state_of (some (_, s)) = some s

  -- A handler that returned early is followed by the closing of the connection as well.
  unfoldable pub serve_order : Server p → Option (Server p)
  serve_order s = elim (get_order s) [
    | none ↦ none
    | some (order, s₁) ↦ elim (state_of (handle order s₁)) [
      | none ↦ none
      | some s₂ ↦ state_of (close_ctrl_client s₂)
    ]
  ]

  -- ReceiveOrder. The CID of the peer is not used.
  unfoldable pub receive_order : Server p → Option (Server p)
  receive_order s =
      let (accepted, w) = p.accept_inet s.endpoints.ctrl s.net.world in
      let n : Net p = record (s.net) { world = w } in
      elim accepted [
        | none ↦ some (record s { net = n })
        | some (d, _) ↦ elim (set_descriptor (pos d)) [
          | none ↦ none
          | some socket ↦
              serve_order (record s { net = n; ctrl_sockets = s.ctrl_sockets ++ socket ∷ [] })
        ]
      ]
