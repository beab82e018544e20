-- ===== src/Radio/Reconnected.antt =====
-- How ckernelwifi.cc finds its server again.
use mathlib.Core.Path.{subst}
use vwifi.Prelude.{
  ℕ, zero, suc, ◌≤◌, ◌<◌, ◌≡◌, refl, sym, ◌∙◌, ◌⊎◌, inl, inr, Bool, true, false, some, arith,
  if_split, if◌then◌else◌,
}
use vwifi.Prelude.Int.{ℤ, pos, ℤ-cases}
use vwifi.Platform.{Platform, Net}
use vwifi.Select.{add_node}
use vwifi.Client.{SocketClient, close, connect, give_up}
use vwifi.Client.Connection.{Connects, connect-some, connect-Connects}
use vwifi.Kernel.{Kernel, ServerAddress}
use vwifi.Radio.{Radio, with_world}
use vwifi.Radio.Connecting.{
  enroll, connect_radio, reconnect_to_server, reconnect_if_lost, manage_server_crash_round,
  manage_server_crash_rounds,
}

-- A server that comes back: sockets can be had, and `rank` bounds how often `connect` still fails.
pub record Recovers {p : Platform} (k : Kernel p) (rank : p.World → ℕ) : Type 0 where
  pub socket : (a : ServerAddress) (w : p.World) → (d : ℕ) × ((k.socket a w).0 ≡ some d)
  pub socket_rank : (a : ServerAddress) (w : p.World) → rank (k.socket a w).1 ≤ rank w
  pub connect_rank :
      (d : ℤ) (a : ServerAddress) (w : p.World)
      → ((k.connect d a w).0 ≡ true) ⊎ (rank (k.connect d a w).1 < rank w)
  pub close_rank : (d : ℕ) (w : p.World) → rank (p.close d w) ≤ rank w
  pub sleep_rank : (t : ℕ) (w : p.World) → rank (k.sleep t w) ≤ rank w

abbrev pub IsUninterrupted : (p : Platform) → Kernel p → Type 0
IsUninterrupted p k = (w : p.World) → k.interrupted w ≡ false

module _ {p : Platform} where
  -- The flag is set, and the scheduler watches the descriptor of the connection.
  abbrev pub IsLinked : Radio p → Type 0
  IsLinked r =
      (r.connected_to_server ≡ true)
      × ((d : ℕ) × (r.client.master ≡ pos d) × (r.scheduler.master d ≡ true))

  pub success :
      (k : Kernel p) (s : SocketClient) (n : Net p) (q : Bool × SocketClient × Net p)
      → Connects k s n q
      → q.0 ≡ true
      → (d : ℕ) × (q.1.master ≡ pos d)
  success k s n (true, s', n') h e = (h.0, h.2)
  success k s n (false, s', n') h e = cc

  pub enroll-IsLinked :
      (k : Kernel p) (r : Radio p) (d : ℕ) (b : Bool)
      → r.client.master ≡ pos d
      → IsLinked (record (enroll k b r) { connected_to_server = true })
  unfolding enroll add_node
  enroll-IsLinked k r d b e = (refl, (d, e, ground (arith, e)))

  module _ (k : Kernel p) (rank : p.World → ℕ) (law : Recovers k rank) where
    close-rank : (s : SocketClient) (n : Net p) → rank (close s n).1.world ≤ rank n.world
    unfolding close
    close-rank s n = elim (ℤ-cases s.master) [
      | inl (d, e) ↦ rw (e, close) (law.close_rank d n.world)
      | inr (d, e) ↦ rw (e, close) (omega arith)
    ]

    give_up-rank : (s : SocketClient) (n : Net p) → rank (give_up k s n).2.world ≤ rank n.world
    unfolding give_up
    give_up-rank s n = omega (arith, law.sleep_rank 2 (close s n).1.world, close-rank s n)

    connect-rank :
        (s : SocketClient) (n : Net p)
        → ((connect k s n).0 ≡ true) ⊎ (rank (connect k s n).2.world < rank n.world)
    connect-rank s n =
        let (d, e) = law.socket s.server n.world in
        let w = (k.socket s.server n.world).1 in
        let s' : SocketClient = record s { master = pos d } in
        let w' = (k.connect (pos d) s.server w).1 in
        let n' : Net p = record n { world = w' } in
        let goal =
          λ (q : Bool × SocketClient × Net p). (q.0 ≡ true) ⊎ (rank q.2.world < rank n.world) in
        subst goal (sym (connect-some k s n d e)) (
          if_split goal (k.connect (pos d) s.server w).0 (λ t. inl refl)
            (λ f. inr (elim (law.connect_rank (pos d) s.server w) [
              | inl t ↦ cc
              | inr h ↦ omega (arith, give_up-rank s' n', law.socket_rank s.server n.world)
            ])))

    -- A round that finds the connection lost links it again, or brings the server nearer.
    abbrev Nearer : Radio p → Radio p → Type 0
    Nearer r r' = (r'.connected_to_server ≡ false) × (rank r'.net.world < rank r.net.world)

    -- What an attempt leaves as it is, and that it links the client or brings the server nearer.
    abbrev pub Tries : Radio p → Bool × Radio p → Type 0
    Tries r (ok, r') =
        (r'.list_winterfaces ≡ r.list_winterfaces)
        × (r'.initialized ≡ r.initialized)
        × (r'.being_started ≡ r.being_started)
        × (r'.connected_to_server ≡ r.connected_to_server)
        × (((ok ≡ true) × IsLinked (record r' { connected_to_server = true }))
            ⊎ ((ok ≡ false) × (rank r'.net.world < rank r.net.world)))

    module _ (b : Bool) where
      abbrev linked : Bool × Radio p → Radio p
      linked (ok, r) = if ok then record r { connected_to_server = true } else r

      lost_round :
          (r : Radio p)
          → r.connected_to_server ≡ false
          → reconnect_if_lost k b r ≡ linked (reconnect_to_server k b r)
      unfolding reconnect_if_lost
      lost_round r off = ground (arith, off)

      pub connect_radio-Tries : (r : Radio p) → Tries r (connect_radio k b r)
      unfolding connect_radio enroll
      connect_radio-Tries r =
          let c = connect k r.client r.net in
          let r' : Radio p = record r { client = c.1; net = c.2 } in
          if_split (Tries r) c.0
            (λ t.
              let (d, e) = success k r.client r.net c (connect-Connects k r.client r.net) t in
              (refl, refl, refl, refl, inl (refl, enroll-IsLinked k r' d b e)))
            (λ f. (
              refl,
              refl,
              refl,
              refl,
              inr (refl, elim (connect-rank r.client r.net) [ inl t ↦ cc | inr h ↦ h ]),
            ))

      linked-Nearer :
          (r : Radio p) (q : Bool × Radio p)
          → r.connected_to_server ≡ false
          → Tries r q
          → IsLinked (linked q) ⊎ Nearer r (linked q)
      linked-Nearer r (true, r') off (d, i, s, c, inl (e, l)) = inl l
      linked-Nearer r (true, r') off (d, i, s, c, inr (e, h)) = cc
      linked-Nearer r (false, r') off (d, i, s, c, inl (e, l)) = cc
      linked-Nearer r (false, r') off (d, i, s, c, inr (e, h)) = inr (c ∙ off, h)

      reconnect-Nearer :
          (r : Radio p)
          → r.connected_to_server ≡ false
          → IsLinked (reconnect_if_lost k b r) ⊎ Nearer r (reconnect_if_lost k b r)
      unfolding reconnect_to_server
      reconnect-Nearer r off =
          let (client, n) = close r.client r.net in
          let r₀ : Radio p = record r { client = client; net = n } in
          subst (λ q. IsLinked q ⊎ Nearer r q) (sym (lost_round r off))
            (elim (linked-Nearer r₀ _ off (connect_radio-Tries r₀)) [
              | inl l ↦ inl l
              | inr h ↦ inr (h.0, omega (arith, h.1, close-rank r.client r.net))
            ])

      module _ (free : IsUninterrupted p k) where
        free_round :
            (r : Radio p)
            → manage_server_crash_round k b r ≡ (
              true,
              with_world (k.sleep 1 (reconnect_if_lost k b r).net.world) (reconnect_if_lost k b r),
            )
        unfolding manage_server_crash_round
        free_round r = ground (arith, free r.net.world)

        rounds-suc :
            (n : ℕ) (r : Radio p)
            → manage_server_crash_rounds k b (suc n) r
              ≡ manage_server_crash_rounds k b n (
                  with_world
                    (k.sleep 1 (reconnect_if_lost k b r).net.world)
                    (reconnect_if_lost k b r))
        unfolding manage_server_crash_rounds
        rounds-suc n r = rw (free_round r)

        stays : (r : Radio p) → IsLinked r → IsLinked (reconnect_if_lost k b r)
        unfolding reconnect_if_lost
        stays r h = ground (arith, h)

        rounds_keep :
            (n : ℕ) (r : Radio p) → IsLinked r → IsLinked (manage_server_crash_rounds k b n r)
        unfolding manage_server_crash_rounds
        rounds_keep zero r h = h
        rounds_keep (suc n) r h =
            subst IsLinked (sym (rounds-suc n r)) (rounds_keep n _ (stays r h))

        -- Where sockets can be had, a rank of the network bounds how often connect still fails,
        -- closing and sleeping do not raise it, and no thread is interrupted, a client that has
        -- lost its server has after more rounds of manage_server_crash_loop than the rank its flag
        -- set and holds a descriptor that the scheduler watches.
        pub rounds-IsLinked :
            (n : ℕ) (r : Radio p)
            → r.connected_to_server ≡ false
            → rank r.net.world < n
            → IsLinked (manage_server_crash_rounds k b n r)
        rounds-IsLinked zero r off h = elim h [ ]
        rounds-IsLinked (suc n) r off h =
            let r' = reconnect_if_lost k b r in
            let next = with_world (k.sleep 1 r'.net.world) r' in
            subst IsLinked (sym (rounds-suc n r)) (elim (reconnect-Nearer r off) [
              | inl l ↦ rounds_keep n next l
              | inr g ↦
                  rounds-IsLinked n next g.0 (omega (arith, h, g.1, law.sleep_rank 1 r'.net.world))
            ])
