-- ===== src/Client.antt =====
-- csocket.cc, csocketclient.cc, csocketclientitcp.cc and csocketclientvtcp.cc: the connection of
-- vwifi-client or of vwifi-ctrl to a server.

pub mod Connection
use vwifi.Prelude.{
  ℕ, zero, suc, Bool, true, false, Option, none, some, List, [], ◌∷◌, ◌++◌, if◌then◌else◌,
}
use vwifi.Prelude.Int.{ℤ, pos, negsuc}
use vwifi.Platform.{Platform, Net, closed}
use vwifi.Tools.{hash_ipaddr}
use vwifi.Socket.{DynBuffer, socket_error, send, send_big_data, read, read_big_data}
use vwifi.Kernel.{Kernel, ServerAddress, itcp, vtcp}

pub record SocketClient : Type 0 where
  pub master : ℤ
  pub is_connected : Bool
  pub stop_the_reconnect : Bool
  pub server : ServerAddress

-- CSocket and CSocketClient as constructed, with the `Init` of the subclass. CID 2 is the host.
unfoldable pub new_client : ServerAddress → SocketClient
new_client server = record {
  master = pos 0;
  is_connected = false;
  stop_the_reconnect = false;
  server = server;
}

unfoldable pub init_itcp : (inet_addr htons_port : ℕ) → SocketClient
init_itcp inet_addr htons_port =
    new_client (itcp (record { s_addr = inet_addr; sin_port = htons_port }))

unfoldable pub init_vtcp : (port : ℕ) → SocketClient
init_vtcp port = new_client (vtcp 2 port)

module _ (p : Platform) where
  -- CSocketClient::Read and ReadBigData; a call on descriptor -1 fails.
  unfoldable pub read_client : ℕ → SocketClient → p.World → Option (List ℕ) × p.World
  read_client size s w =
      if s.is_connected
      then (elim s.master [ negsuc d ↦ (none, w) | pos d ↦ read p d size w ])
      else (none, w)

  unfoldable pub read_big_data_client :
      DynBuffer → SocketClient → p.World → Option (ℤ × DynBuffer × p.World)
  read_big_data_client buffer s w =
      if s.is_connected
      then (elim s.master [
        | negsuc d ↦ some (socket_error, buffer, w)
        | pos d ↦ read_big_data p d buffer w
      ])
      else some (socket_error, buffer, w)

module _ {p : Platform} where
  -- CSocket::Close.
  unfoldable pub close : SocketClient → Net p → SocketClient × Net p
  close s n = elim s.master [
    | negsuc d ↦ (s, n)
    | pos d ↦ (
      record s { master = socket_error },
      record { world = p.close d n.world; calls = n.calls ++ closed d ∷ [] },
    )
  ]

  -- CSocketClient::Send and SendBigData.
  unfoldable pub send_client : List ℕ → SocketClient → Net p → Option ℕ × Net p
  send_client bytes s n =
      if s.is_connected
      then (elim s.master [ negsuc d ↦ (none, n) | pos d ↦ send p d bytes n ])
      else (none, n)

  unfoldable pub send_big_data_client : List ℕ → ℕ → SocketClient → Net p → Option ℕ × Net p
  send_big_data_client bytes size s n =
      if s.is_connected
      then (elim s.master [ negsuc d ↦ (none, n) | pos d ↦ send_big_data p d bytes size n ])
      else (none, n)

  module _ (k : Kernel p) where
    -- `_Configure` of both subclasses.
    unfoldable pub configure : SocketClient → Net p → Bool × SocketClient × Net p
    configure s n =
        let (ret, w) = k.socket s.server n.world in
        let n' : Net p = record n { world = w } in
        elim ret [
          | none ↦ (false, record s { master = socket_error }, n')
          | some d ↦ (true, record s { master = pos d }, n')
        ]

    -- The failing end of `Connect`.
    unfoldable pub give_up : SocketClient → Net p → Bool × SocketClient × Net p
    give_up s n = let (s', n') = close s n in (false, s', record n' { world = k.sleep 2 n'.world })

    -- CSocketClient::Connect, which `_Connect` of both subclasses calls.
    unfoldable pub connect : SocketClient → Net p → Bool × SocketClient × Net p
    connect s n =
        let (configured, s', n') = configure s n in
        let (ok, w) = k.connect s'.master s'.server n'.world in
        let n'' : Net p = record n' { world = w } in
        if configured
        then (if ok then (true, record s' { is_connected = true }, n'') else give_up s' n'')
        else (false, s', n')

    -- CSocketClient::ConnectLoop. `none` means that the fuel ran out.
    unfoldable pub connect_loop : ℕ → SocketClient → Net p → Option (Bool × SocketClient × Net p)
    connect_loop zero s n = none
    connect_loop (suc fuel) s n =
        let (ok, s', n') = connect s n in
        let rest = connect_loop fuel s' n' in
        if s.stop_the_reconnect
        then some (false, s, n)
        else if ok
        then some (true, s', n')
        else rest

    -- `_GetID` of both subclasses.
    unfoldable pub get_id_vtcp : Net p → ℤ × Net p
    get_id_vtcp n =
        let (file, w) = k.open_vsock n.world in
        elim file [
          | none ↦ (negsuc 0, record n { world = w })
          | some d ↦
              let (cid, w') = k.local_cid d w in
              let n' : Net p = record { world = p.close d w'; calls = n.calls ++ closed d ∷ [] } in
              (elim cid [ none ↦ negsuc 0 | some c ↦ c ], n')
        ]

    unfoldable pub get_id : Bool → SocketClient → Net p → ℤ × Net p
    get_id hash_uses_port s n = elim s.server [
      | itcp server ↦
          let (my_addr, w) = k.getsockname s.master n.world in
          (pos (hash_ipaddr hash_uses_port my_addr), record n { world = w })
      | vtcp cid port ↦ get_id_vtcp n
    ]
