-- ===== src/MainLoop.antt =====
-- vwifi-server.cc, built with ENABLE_VHOST: the start of the server and the rounds of its loop. The
-- messages on the console are left out. `none` is a failed assertion or a read of what was not
-- written.
pub mod Running
use vwifi.Prelude.{ℕ, zero, suc, Bool, Option, none, some, ◌>>=◌, ◌>>◌, [], if◌then◌else◌}
use vwifi.Platform.{Platform, Net}
use vwifi.Tools.{hash_ipaddr}
use vwifi.Select.{init, add_node, descriptor_has_action, wait}
use vwifi.Socket.{new_buffer, is_socket_error}
use vwifi.WifiServer.{listen, accept}
use vwifi.Server.{Endpoints, Server, forward_clients, forward_spies}
use vwifi.Ctrl.{receive_order}

-- `stopped` is an `exit` after an error of a call of the system, which runs no destructor of a local
-- variable; `returning` is the `return` after an error of the scheduler, with the state that the
-- destructors of the servers find.
pub data Outcome (p : Platform) : Type 0 where
  stopped : Outcome p
  returning : Server p → Outcome p
  running : Server p → Outcome p

abbrev pub wifi_max_deconnected_client : ℕ
wifi_max_deconnected_client = 15

module _ (p : Platform) where
  -- The state before the first round, when the four servers listen.
  unfoldable pub start : Endpoints → Bool → Bool → p.Real → p.World → Server p
  start e can_lost_packets hash_uses_port scale w = record {
    endpoints = e;
    clients = listen wifi_max_deconnected_client;
    spies = listen 1;
    ctrl_sockets = [];
    scheduler = add_node e.ctrl (add_node e.spy (add_node e.itcp (add_node e.vtcp init)));
    buffer = new_buffer p w;
    can_lost_packets = can_lost_packets;
    hash_uses_port = hash_uses_port;
    scale = scale;
    net = record { world = w; calls = [] };
  }

module _ {p : Platform} where
  abbrev pub or_stop : (Server p → Option (Outcome p)) → Option (Outcome p) → Option (Outcome p)
  or_stop next none = none
  or_stop next (some stopped) = some stopped
  or_stop next (some (returning s)) = some (returning s)
  or_stop next (some (running s)) = next s

  abbrev pub go_on : Option (Server p) → Option (Outcome p)
  go_on none = none
  go_on (some s) = some (running s)

  unfoldable pub admit_client : ℕ → ℕ → Server p → Option (Server p)
  admit_client socket cid s = do
    clients ← accept socket cid s.clients
    some (record s { clients = clients; scheduler = add_node socket s.scheduler })

  unfoldable pub admit_spy : ℕ → ℕ → Server p → Option (Server p)
  admit_spy socket cid s = do
    spies ← accept socket cid s.spies
    some (record s { spies = spies; scheduler = add_node socket s.scheduler })

  -- `_Accept` on the three listening sockets, with the CID of the peer.
  unfoldable pub accept_vhost : Server p → Option (Outcome p)
  accept_vhost s =
      let (peer, w) = p.accept_vsock s.endpoints.vtcp s.net.world in
      let n : Net p = record (s.net) { world = w } in
      if descriptor_has_action s.endpoints.vtcp s.scheduler
      then (elim peer [
        | none ↦ some stopped
        | some (socket, cid) ↦ go_on (admit_client socket cid (record s { net = n }))
      ])
      else some (running s)

  unfoldable pub accept_tcp : Server p → Option (Outcome p)
  accept_tcp s =
      let (peer, w) = p.accept_inet s.endpoints.itcp s.net.world in
      let n : Net p = record (s.net) { world = w } in
      if descriptor_has_action s.endpoints.itcp s.scheduler
      then (elim peer [
        | none ↦ some stopped
        | some (socket, addr) ↦
            go_on (admit_client socket (hash_ipaddr s.hash_uses_port addr) (record s { net = n }))
      ])
      else some (running s)

  unfoldable pub accept_spy : Server p → Option (Outcome p)
  accept_spy s =
      let (peer, w) = p.accept_inet s.endpoints.spy s.net.world in
      let n : Net p = record (s.net) { world = w } in
      if descriptor_has_action s.endpoints.spy s.scheduler
      then (elim peer [
        | none ↦ some stopped
        | some (socket, addr) ↦
            go_on (admit_spy socket (hash_ipaddr s.hash_uses_port addr) (record s { net = n }))
      ])
      else some (running s)

  unfoldable pub serve_ctrl : Server p → Option (Outcome p)
  serve_ctrl s =
      if descriptor_has_action s.endpoints.ctrl s.scheduler
      then go_on (receive_order s)
      else some (running s)

  -- One round of the loop.
  unfoldable pub round : Server p → Option (Outcome p)
  round s =
      let (activity, scheduler, w) = wait p s.scheduler s.net.world in
      let n : Net p = record (s.net) { world = w } in
      if is_socket_error activity
      then some (returning (record s { scheduler = scheduler; net = n }))
      else or_stop (λ s₅. go_on (forward_spies s₅))
          (or_stop (λ s₄. go_on (forward_clients s₄))
            (or_stop serve_ctrl (
              or_stop accept_spy
                (or_stop accept_tcp (accept_vhost (record s { scheduler = scheduler; net = n }))))))

  -- At most `rounds` rounds.
  unfoldable pub run : ℕ → Server p → Option (Outcome p)
  run zero s = some (running s)
  run (suc rounds) s = or_stop (run rounds) (round s)
