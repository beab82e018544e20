-- ===== src/Listening.antt =====
-- How vwifi-server.cc opens its four servers before its loop: Listen of csocketserver.cc and
-- cwifiserver.cc over csocketserverfunctionitcp.cc and csocketserverfunctionvtcp.cc. The state of
-- the lists, which Listen bounds, is that of MainLoop.start.
pub mod Opened
use vwifi.Prelude.{ℕ, Bool, false, not, Option, none, some, [], ◌∷◌, ◌++◌, if◌then◌else◌}
use vwifi.Platform.{Platform, Net, closed}
use vwifi.CommandLine.{ServerOptions}
use vwifi.Server.{Endpoints}
use vwifi.MainLoop.{Outcome, stopped, start, run}

-- AF_INET and AF_VSOCK.
pub data Family : Type 0 where
  inet : Family
  vsock : Family

-- SO_REUSEADDR, and SO_RCVTIMEO and SO_SNDTIMEO with their seconds.
pub data SocketOption : Type 0 where
  reuse_address : SocketOption
  receive_timeout : ℕ → SocketOption
  send_timeout : ℕ → SocketOption

-- The calls on listening sockets: `socket` gives a descriptor or fails, the others give whether they
-- succeed. `bind` is to any address and a port, `listen` has a number of pending connections.
pub record ListenKernel (p : Platform) : Type 0 where
  pub socket : Family → p.World → Option ℕ × p.World
  pub set_option : ℕ → SocketOption → p.World → Bool × p.World
  pub bind : ℕ → Family → ℕ → p.World → Bool × p.World
  pub listen : ℕ → ℕ → p.World → Bool × p.World

module _ {p : Platform} (k : ListenKernel p) where
  -- A timeout that cannot be set is only reported.
  unfoldable pub setup_itcp : ℕ → ℕ → p.World → Bool × p.World
  setup_itcp master port w =
      let (reuses, w₁) = k.set_option master reuse_address w in
      let (_, w₂) = k.set_option master (receive_timeout 3) w₁ in
      let (_, w₃) = k.set_option master (send_timeout 3) w₂ in
      let (bound, w₄) = k.bind master inet port w₃ in
      if not reuses then (false, w₁) else if not bound then (false, w₄) else k.listen master 3 w₄

  unfoldable pub setup_vtcp : ℕ → ℕ → p.World → Bool × p.World
  setup_vtcp master port w =
      let (bound, w₁) = k.bind master vsock port w in
      if not bound then (false, w₁) else k.listen master 3 w₁

  unfoldable pub setup : Family → ℕ → ℕ → p.World → Bool × p.World
  setup inet = setup_itcp
  setup vsock = setup_vtcp

  -- Behind Configure: the socket is closed again if it cannot listen.
  unfoldable pub listen_or_close : Family → ℕ → ℕ → Net p → Option ℕ × Net p
  listen_or_close f port master n =
      let (ok, w) = setup f master port n.world in
      if ok
      then (some master, record n { world = w })
      else (none, record { world = p.close master w; calls = n.calls ++ closed master ∷ [] })

  -- `_Listen` of both families: the descriptor that listens.
  unfoldable pub listen_on : Family → ℕ → Net p → Option ℕ × Net p
  listen_on f port n =
      let (master, w) = k.socket f n.world in
      let n' : Net p = record n { world = w } in
      elim master [ none ↦ (none, n') | some d ↦ listen_or_close f port d n' ]

  -- The next server, if the one before listens; else the process exits.
  abbrev pub or_exit :
      {A : Type 0} → Option ℕ × Net p → (ℕ → Net p → Option A × Net p) → Option A × Net p
  or_exit (none, n) next = (none, n)
  or_exit (some d, n) next = next d n

  unfoldable pub open_servers : ServerOptions → Net p → Option Endpoints × Net p
  open_servers o n = or_exit (listen_on vsock o.port_vhost n) λ vtcp n₁.
      or_exit (listen_on inet o.port_tcp n₁) λ itcp n₂.
        or_exit (listen_on inet o.port_spy n₂) λ spy n₃.
          or_exit (listen_on inet o.port_ctrl n₃) λ ctrl n₄. (
            some (record {
              vtcp = vtcp;
              itcp = itcp;
              spy = spy;
              ctrl = ctrl;
              port_vtcp = o.port_vhost;
              port_itcp = o.port_tcp;
            }),
            n₄,
          )

  -- `vwifi_server`, for a number of rounds of its loop.
  unfoldable pub vwifi_server : ℕ → ServerOptions → p.Real → p.World → Option (Outcome p)
  vwifi_server rounds o scale w =
      let (opened, n) = open_servers o (record { world = w; calls = [] }) in
      elim opened [
        | none ↦ some stopped
        | some e ↦ run rounds (start p e o.can_lost_packets o.hash_uses_port scale n.world)
      ]
