-- ===== src/MainLoop/Running.antt =====
-- The loop of vwifi-server.cc keeps the invariant of the server from the start on.
use vwifi.Prelude.{
  false, ℕ, zero, suc, ◌≡◌, refl, inl, inr, if_both, Option-cases, Bool, not, ◌&&◌, Option, some,
  [], ◌∷◌, arith, count-append,
}
use vwifi.Platform.{Platform, SockaddrIn, Net}
use vwifi.Tools.{hash_ipaddr}
use vwifi.Prelude.Int.{ℤ, pos, ltb_ℤ, ◌+ℤ◌}
use vwifi.Select.{Select, init, add_node, descriptor_has_action, wait}
use vwifi.Select.Nodes.{count-add_node, init-WatchesNodes, add_node-WatchesNodes}
use vwifi.Socket.{is_socket_error}
use vwifi.WifiServer.{listen}
use vwifi.WifiServer.Registry.{IsCid, descriptors, listen-IsValid, accept-IsValid}
use vwifi.Server.{Endpoints, Server}
use vwifi.Server.Forward.{ParsesMessages}
use vwifi.Server.Sound.{IsSound, Continues, forward_clients-IsSound, forward_spies-IsSound}
use vwifi.Ctrl.Serving.{TerminatesNames, receive_order-IsSound}
use vwifi.MainLoop.{
  Outcome, stopped, returning, running, start, or_stop, go_on, admit_client, admit_spy,
  accept_vhost, accept_tcp, accept_spy, serve_ctrl, round, run,
}

-- Every peer has a CID that the server may give: that of a guest, or 0.
pub record HasCids (p : Platform) : Type 0 where
  pub vsock :
      (d : ℕ) (w : p.World) (socket cid : ℕ)
      → (p.accept_vsock d w).0 ≡ some (socket, cid)
      → IsCid cid
  pub inet :
      (d : ℕ) (w : p.World) (socket : ℕ) (addr : SockaddrIn) (with_port : Bool)
      → (p.accept_inet d w).0 ≡ some (socket, addr)
      → IsCid (hash_ipaddr with_port addr)

list_nodes-wait :
    (p : Platform) (s : Select) (w : p.World) → (wait p s w).1.list_nodes ≡ s.list_nodes
unfolding wait
list_nodes-wait p s w =
    if_both (λ (r : ℤ × Select × p.World). r.1.list_nodes ≡ s.list_nodes)
      (ltb_ℤ (p.pselect (s.max_descriptor +ℤ pos 1) s.master w).0 (pos 0)
        && not (p.pselect (s.max_descriptor +ℤ pos 1) s.master w).1)
      refl refl

master-wait : (p : Platform) (s : Select) (w : p.World) → (wait p s w).1.master ≡ s.master
unfolding wait
master-wait p s w =
    if_both (λ (r : ℤ × Select × p.World). r.1.master ≡ s.master)
      (ltb_ℤ (p.pselect (s.max_descriptor +ℤ pos 1) s.master w).0 (pos 0)
        && not (p.pselect (s.max_descriptor +ℤ pos 1) s.master w).1)
      refl refl

module _ {p : Platform} where
  -- Has exited, or has returned from an error of the scheduler or goes on, in the invariant with no
  -- control connection left.
  abbrev pub IsSoundOutcome : Outcome p → Type 0
  IsSoundOutcome stopped = Unit
  IsSoundOutcome (returning s) = IsSound false 0 s
  IsSoundOutcome (running s) = IsSound false 0 s

  abbrev pub Runs : Option (Outcome p) → Type 0
  Runs x = (o : Outcome p) × (x ≡ some o) × IsSoundOutcome o

  go_on-Runs : (x : Option (Server p)) → Continues false 0 x → Runs (go_on x)
  go_on-Runs x (s, e, v) = (running s, rw e refl, v)

  or_stop-Runs :
      (next : Server p → Option (Outcome p)) (x : Option (Outcome p))
      → Runs x
      → ((s : Server p) → IsSound false 0 s → Runs (next s))
      → Runs (or_stop next x)
  or_stop-Runs next x (stopped, e, v) h = (stopped, rw e refl, v)
  or_stop-Runs next x (returning s, e, v) h = (returning s, rw e refl, v)
  or_stop-Runs next x (running s, e, v) h = rw e (h s v)

  in_world :
      (s : Server p) (n : Net p) {k : ℕ}
      → IsSound false k s
      → IsSound false k (record s { net = n })
  in_world s n v = record {
    clients_valid = v.clients_valid;
    spies_valid = v.spies_valid;
    orders = v.orders;
    balanced = v.balanced;
    watched = v.watched;
  }

  admit_client-Continues :
      (socket cid : ℕ) (s : Server p)
      → IsSound false 0 s
      → IsCid cid
      → Continues false 0 (admit_client socket cid s)
  unfolding admit_client
  admit_client-Continues socket cid s v c =
      let (clients, e, vc, _, ds) = accept-IsValid socket cid s.clients v.clients_valid c in
      (
        record s { clients = clients; scheduler = add_node socket s.scheduler },
        rw e refl,
        record {
          clients_valid = vc;
          spies_valid = v.spies_valid;
          orders = v.orders;
          balanced = λ d.
              rw
                (
                  ds,
                  count-append d (descriptors s.clients.info_sockets) (socket ∷ []),
                  count-add_node d socket s.scheduler,
                )
                (omega (arith, v.balanced d));
          watched = add_node-WatchesNodes socket s.scheduler v.watched;
        },
      )

  admit_spy-Continues :
      (socket cid : ℕ) (s : Server p)
      → IsSound false 0 s
      → IsCid cid
      → Continues false 0 (admit_spy socket cid s)
  unfolding admit_spy
  admit_spy-Continues socket cid s v c =
      let (spies, e, vs, _, ds) = accept-IsValid socket cid s.spies v.spies_valid c in
      (
        record s { spies = spies; scheduler = add_node socket s.scheduler },
        rw e refl,
        record {
          clients_valid = v.clients_valid;
          spies_valid = vs;
          orders = v.orders;
          balanced = λ d.
              rw
                (
                  ds,
                  count-append d (descriptors s.spies.info_sockets) (socket ∷ []),
                  count-add_node d socket s.scheduler,
                )
                (omega (arith, v.balanced d));
          watched = add_node-WatchesNodes socket s.scheduler v.watched;
        },
      )

  ready :
      (s : Server p)
      → IsSound false 0 s
      → IsSound false 0 (record s {
        scheduler = (wait p s.scheduler s.net.world).1;
        net = record (s.net) { world = (wait p s.scheduler s.net.world).2 };
      })
  ready s v = record {
    clients_valid = v.clients_valid;
    spies_valid = v.spies_valid;
    orders = v.orders;
    balanced = λ d. rw (list_nodes-wait p s.scheduler s.net.world) (v.balanced d);
    watched = λ d.
        rw (list_nodes-wait p s.scheduler s.net.world, master-wait p s.scheduler s.net.world)
          (v.watched d);
  }

  module _ (names : TerminatesNames p) (cids : HasCids p) (parses : ParsesMessages p) where
    accept_vhost-Runs : (s : Server p) → IsSound false 0 s → Runs (accept_vhost s)
    unfolding accept_vhost
    accept_vhost-Runs s v =
        let n : Net p = record (s.net) {
          world = (p.accept_vsock s.endpoints.vtcp s.net.world).1;
        } in
        if_both Runs (descriptor_has_action s.endpoints.vtcp s.scheduler)
          (elim (Option-cases (p.accept_vsock s.endpoints.vtcp s.net.world).0) [
            | inl e ↦ rw e (stopped, refl, tt)
            | inr ((socket, cid), e) ↦ rw e (
                go_on-Runs _ (
                  admit_client-Continues socket cid (record s { net = n }) (in_world s n v)
                    (cids.vsock s.endpoints.vtcp s.net.world socket cid e)))
          ])
          (running s, refl, v)

    accept_tcp-Runs : (s : Server p) → IsSound false 0 s → Runs (accept_tcp s)
    unfolding accept_tcp
    accept_tcp-Runs s v =
        let n : Net p = record (s.net) { world = (p.accept_inet s.endpoints.itcp s.net.world).1 } in
        if_both Runs (descriptor_has_action s.endpoints.itcp s.scheduler)
          (elim (Option-cases (p.accept_inet s.endpoints.itcp s.net.world).0) [
            | inl e ↦ rw e (stopped, refl, tt)
            | inr ((socket, addr), e) ↦ rw e (
                go_on-Runs _ (
                  admit_client-Continues socket _ (record s { net = n }) (in_world s n v)
                    (cids.inet s.endpoints.itcp s.net.world socket addr s.hash_uses_port e)))
          ])
          (running s, refl, v)

    accept_spy-Runs : (s : Server p) → IsSound false 0 s → Runs (accept_spy s)
    unfolding accept_spy
    accept_spy-Runs s v =
        let n : Net p = record (s.net) { world = (p.accept_inet s.endpoints.spy s.net.world).1 } in
        if_both Runs (descriptor_has_action s.endpoints.spy s.scheduler)
          (elim (Option-cases (p.accept_inet s.endpoints.spy s.net.world).0) [
            | inl e ↦ rw e (stopped, refl, tt)
            | inr ((socket, addr), e) ↦ rw e (
                go_on-Runs _ (
                  admit_spy-Continues socket _ (record s { net = n }) (in_world s n v)
                    (cids.inet s.endpoints.spy s.net.world socket addr s.hash_uses_port e)))
          ])
          (running s, refl, v)

    serve_ctrl-Runs : (s : Server p) → IsSound false 0 s → Runs (serve_ctrl s)
    unfolding serve_ctrl
    serve_ctrl-Runs s v =
        if_both Runs (descriptor_has_action s.endpoints.ctrl s.scheduler)
          (go_on-Runs _ (receive_order-IsSound names s v)) (running s, refl, v)

    round-Runs : (s : Server p) → IsSound false 0 s → Runs (round s)
    unfolding round
    round-Runs s v =
        let (activity, scheduler, w) = wait p s.scheduler s.net.world in
        let n : Net p = record (s.net) { world = w } in
        if_both Runs (is_socket_error activity) (returning _, refl, ready s v)
          (or_stop-Runs _ _
            (or_stop-Runs _ _
              (or_stop-Runs serve_ctrl _
                (or_stop-Runs accept_spy _
                  (or_stop-Runs accept_tcp _ (accept_vhost-Runs _ (ready s v)) accept_tcp-Runs)
                  accept_spy-Runs)
                serve_ctrl-Runs)
              (λ s₄ v₄. go_on-Runs _ (forward_clients-IsSound parses s₄ v₄)))
            (λ s₅ v₅. go_on-Runs _ (forward_spies-IsSound parses s₅ v₅)))

    run-Runs : (rounds : ℕ) (s : Server p) → IsSound false 0 s → Runs (run rounds s)
    unfolding run
    run-Runs zero s v = (running s, refl, v)
    run-Runs (suc rounds) s v =
        or_stop-Runs (run rounds) (round s) (round-Runs s v) (run-Runs rounds)

    -- Under the same hypotheses as a round, the server loop from its start runs any number of rounds
    -- without a failed assertion: it has exited after an error of a call, or it goes on, or has come
    -- to its return after an error of the scheduler, with the server in its invariant.
    pub run-start :
        (rounds : ℕ) (e : Endpoints) (can_lost_packets hash_uses_port : Bool) (scale : p.Real)
        (w : p.World)
        → Runs (run rounds (start p e can_lost_packets hash_uses_port scale w))
    unfolding start listen init
    run-start rounds e can_lost_packets hash_uses_port scale w = run-Runs rounds _ (record {
      clients_valid = listen-IsValid 15 (omega arith);
      spies_valid = listen-IsValid 1 (omega arith);
      orders = refl;
      balanced = λ d. ground (
        arith,
        count-add_node d e.ctrl (add_node e.spy (add_node e.itcp (add_node e.vtcp init))),
        count-add_node d e.spy (add_node e.itcp (add_node e.vtcp init)),
        count-add_node d e.itcp (add_node e.vtcp init),
        count-add_node d e.vtcp init,
      );
      watched = add_node-WatchesNodes e.ctrl _ (
          add_node-WatchesNodes e.spy _
            (add_node-WatchesNodes e.itcp _ (add_node-WatchesNodes e.vtcp init init-WatchesNodes)));
    })
