-- ===== src/Server.antt =====
-- vwifi-server.cc: the state of the server process, RemoveClient and ForwardData. `none` is a
-- failed assertion, a read of what was not written, or fuel that ran out.
pub mod Forward
pub mod Sound
use vwifi.Prelude.{
  ℕ, zero, suc, ◌+◌, Bool, true, false, Option, none, some, ◌>>=◌, ◌>>◌, assert, List, ltb,
  if◌then◌else◌, take,
}
use vwifi.Prelude.Int.{ℤ, pos, pos_part, ltb_ℤ}
use vwifi.Platform.{Platform, Net}
use vwifi.Info.{InfoSocket}
use vwifi.Select.{Select, del_node, descriptor_has_action}
use vwifi.Socket.{DynBuffer}
use vwifi.Wifi.{recv_signal}
use vwifi.WifiServer.{
  WifiServer, get_number_client, get_socket_client, is_enable, close_client, send_all_other_clients,
  send_all_other_clients_without_loss, send_all_clients_without_loss,
}

-- The listening sockets and their ports.
pub record Endpoints : Type 0 where
  pub vtcp : ℕ
  pub itcp : ℕ
  pub spy : ℕ
  pub ctrl : ℕ
  pub port_vtcp : ℕ
  pub port_itcp : ℕ

-- `clients` are the lists that the VHOST and the TCP server share.
pub record Server (p : Platform) : Type 0 where
  pub endpoints : Endpoints
  pub clients : WifiServer
  pub spies : WifiServer
  pub ctrl_sockets : List InfoSocket
  pub scheduler : Select
  pub buffer : DynBuffer
  pub can_lost_packets : Bool
  pub hash_uses_port : Bool
  pub scale : p.Real
  pub net : Net p

-- What ForwardData works on.
pub record Relay (p : Platform) : Type 0 where
  pub src : WifiServer
  pub other_dst : WifiServer
  pub scheduler : Select
  pub buffer : DynBuffer
  pub net : Net p

module _ {p : Platform} where
  -- The messages on the console are left out, but for the assertion that they make.
  unfoldable pub remove_client : ℕ → ℕ → Relay p → Option (Relay p)
  remove_client i socket r = do
    assert (ltb i (get_number_client r.src))
    (src, n) ← close_client i r.src r.net
    some (record r { src = src; net = n; scheduler = del_node socket r.scheduler })

  -- The sending of one signal that was received from client `i`.
  unfoldable pub forward_signal : p.Real → Bool → Bool → ℕ → ℤ → List ℕ → Relay p → Option (Relay p)
  forward_signal scale can_lost_packets src_is_spy i power bytes r = do
    (src, n₁) ←
        if src_is_spy
        then send_all_other_clients_without_loss i power bytes r.src r.net
        else send_all_other_clients scale can_lost_packets i power bytes r.src r.net
    (dst, n₂) ← send_all_clients_without_loss power bytes r.other_dst n₁
    some (record r { src = src; other_dst = dst; net = n₂ })

  -- The branch of a client whose socket has an action: `false` when it was removed. The variable
  -- `power` is written before it is read.
  unfoldable pub receive_from : p.Real → Bool → Bool → ℕ → ℕ → Relay p → Option (Bool × Relay p)
  receive_from scale can_lost_packets src_is_spy i socket r = do
    (valread, power, buffer, w) ← recv_signal p socket (pos 0) r.buffer r.net.world
    let n : Net p = record (r.net) { world = w }
    let r' : Relay p = record r { buffer = buffer; net = n }
    if ltb_ℤ (pos 0) valread
        then (do
          r'' ←
              forward_signal scale can_lost_packets src_is_spy i power
                (take (pos_part valread) buffer.buffer) r'
          some (true, r''))
        else (do r'' ← remove_client i socket r'; some (false, r''))

  -- The body of the loop of ForwardData: whether `i++` is reached.
  unfoldable pub forward_client : p.Real → Bool → Bool → ℕ → Relay p → Option (Bool × Relay p)
  forward_client scale can_lost_packets src_is_spy i r = do
    socket ← get_socket_client i r.src
    enabled ← is_enable i r.src
    if enabled
        then (if descriptor_has_action socket r.scheduler
            then receive_from scale can_lost_packets src_is_spy i socket r
            else some (true, r))
        else (do r' ← remove_client i socket r; some (false, r'))

  unfoldable pub forward_loop : ℕ → p.Real → Bool → Bool → ℕ → Relay p → Option (Relay p)
  forward_loop zero scale can_lost_packets src_is_spy i r =
      if ltb i (get_number_client r.src) then none else some r
  forward_loop (suc fuel) scale can_lost_packets src_is_spy i r =
      let body = (do
        (advance, r') ← forward_client scale can_lost_packets src_is_spy i r
        forward_loop fuel scale can_lost_packets src_is_spy (if advance then suc i else i) r') in
      if ltb i (get_number_client r.src) then body else some r

  -- Each round removes a client or goes on to the next: as many rounds as clients are enough.
  unfoldable pub forward_data : p.Real → Bool → Bool → Relay p → Option (Relay p)
  forward_data scale can_lost_packets src_is_spy r =
      forward_loop (get_number_client r.src) scale can_lost_packets src_is_spy 0 r

  -- `ForwardData(false, wifiServer, &wifiServerSPY)` and `ForwardData(true, …)`.
  unfoldable pub forward_clients : Server p → Option (Server p)
  forward_clients s = do
    r ← forward_data s.scale s.can_lost_packets false (record {
      src = s.clients;
      other_dst = s.spies;
      scheduler = s.scheduler;
      buffer = s.buffer;
      net = s.net;
    })
    some (record s {
      clients = r.src;
      spies = r.other_dst;
      scheduler = r.scheduler;
      buffer = r.buffer;
      net = r.net;
    })

  unfoldable pub forward_spies : Server p → Option (Server p)
  forward_spies s = do
    r ← forward_data s.scale s.can_lost_packets true (record {
      src = s.spies;
      other_dst = s.clients;
      scheduler = s.scheduler;
      buffer = s.buffer;
      net = s.net;
    })
    some (record s {
      spies = r.src;
      clients = r.other_dst;
      scheduler = r.scheduler;
      buffer = r.buffer;
      net = r.net;
    })
