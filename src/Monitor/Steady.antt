-- ===== src/Monitor/Steady.antt =====
-- What the events that cmonwirelessdevice.cc handles leave as it is, and that it ends with each.
pub mod Dumps
pub use Dumps.{Steady, EndsDumps, Ends, infos_lem}
use Dumps.{with_world-Steady, Steady-trans, handle_del-Steady}
use mathlib.Core.Path.{subst}
use vwifi.Prelude.{
  ℕ, suc, ◌≤◌, ◌<◌, ◌≡◌, refl, ◌∙◌, ◌⊎◌, inl, inr, Option-cases, Option, some, ◌>>=◌, List, [], ◌∷◌,
  arith, ◌==◌, if◌then◌else◌, if_both, none, sym,
}
use vwifi.Platform.{Platform}
use vwifi.Devices.{checkif_wireless_device}
use vwifi.Kernel.{Kernel, LinkKernel}
use vwifi.Radio.{Radio, with_world}
use vwifi.Monitor.{
  Monitor, tb, device_of_link, new_net_interface, del_net_interface, handle_events, recv_inet_event,
  rtm_newlink, rtm_dellink, ifla_address,
}

module _ {p : Platform} (rank : p.World → ℕ) (k : Kernel p) (l : LinkKernel p)
    (law : EndsDumps k l rank) where
  new-Ends :
      (fuel : ℕ) (h : List ℕ) (m : Monitor) (r : Radio p)
      → suc (rank r.net.world) < fuel
      → Ends rank r (new_net_interface k l fuel h m r)
  unfolding new_net_interface
  new-Ends fuel h m r lt = elim (Option-cases (device_of_link l h r)) [
    | inl e ↦
        rw (e, new_net_interface) (m, r, refl, with_world-Steady rank r r.net.world (omega arith))
    | inr (d, e) ↦
        let (ret, m', r', e', s) = infos_lem rank k l law fuel d.index m r lt in
        rw (e, new_net_interface)
          (if_both (Ends rank r) (checkif_wireless_device d) (m', r', rw e', s)
            (m, r, refl, with_world-Steady rank r r.net.world (omega arith)))
  ]

  del-Steady : (h : List ℕ) (r : Radio p) → Steady rank r (del_net_interface k l h r)
  unfolding del_net_interface
  del-Steady h r =
      let still = with_world-Steady rank r r.net.world (omega arith) in
      elim (Option-cases (tb ifla_address (l.link_attributes h))) [
        | inl e ↦ rw (e, del_net_interface) still
        | inr (bytes, e) ↦ elim (Option-cases (device_of_link l h r)) [
          | inl f ↦ rw (e, f, del_net_interface) still
          | inr (d, f) ↦
              rw (e, f, del_net_interface)
                (if_both (Steady rank r) (checkif_wireless_device d)
                  (handle_del-Steady rank k l law d r) still)
        ]
      ]

  continues :
      (fuel : ℕ) (r : Radio p) (o : Option (Monitor × Radio p))
      (next : Monitor → Radio p → Option (Monitor × Radio p))
      → suc (rank r.net.world) < fuel
      → ((m : Monitor) (r : Radio p) → suc (rank r.net.world) < fuel → Ends rank r (next m r))
      → Ends rank r o
      → Ends rank r (o >>= λ (m', r'). next m' r')
  continues fuel r o next lt law' (m', r', e, s) =
      let (m₂, r₂, e₂, s₂) = law' m' r' (omega (arith, lt, s.near)) in
      (m₂, r₂, rw (e, e₂), Steady-trans rank r r' r₂ s s₂)

  events-Ends :
      (fuel : ℕ) (es : List (ℕ × List ℕ)) (m : Monitor) (r : Radio p)
      → suc (rank r.net.world) < fuel
      → Ends rank r (handle_events k l fuel es m r)
  unfolding handle_events
  events-Ends fuel [] m r lt = (m, r, refl, with_world-Steady rank r r.net.world (omega arith))
  events-Ends fuel ((t, h) ∷ rest) m r lt =
      continues fuel r _ (handle_events k l fuel rest) lt (events-Ends fuel rest) (
        if_both (Ends rank r) (t == rtm_newlink) (new-Ends fuel h m r lt) (
          if_both (Ends rank r) (t == rtm_dellink) (m, _, refl, del-Steady h r)
            (m, r, refl, with_world-Steady rank r r.net.world (omega arith))))

  -- Where a rank of the network bounds how many readings of a dump are without its end, and no
  -- other call raises it, recv_inet_event that has read messages, on more fuel than that rank and
  -- one more ends, keeps a valid list of devices valid, and leaves the connection, the flag, the
  -- scheduler, the family and the requests to the driver as they were.
  pub recv_inet_event-Ends :
      (fuel : ℕ) (messages : List (ℕ × List ℕ)) (m : Monitor) (r : Radio p)
      → suc (rank r.net.world) < fuel
      → (l.recvmsg r.net.world).0 ≡ some messages
      → (m' : Monitor) × (r' : Radio p) × (recv_inet_event k l fuel m r ≡ some (m', r'))
        × Steady rank r r'
  unfolding recv_inet_event
  recv_inet_event-Ends fuel messages m r lt read =
      let w = (l.recvmsg r.net.world).1 in
      let (m', r', e, s) =
        events-Ends fuel messages m (with_world w r) (omega (arith, lt, law.events r.net.world)) in
      (
        m',
        r',
        rw read e,
        Steady-trans rank r (with_world w r) r'
            (with_world-Steady rank r w (law.events r.net.world)) s,
      )

  -- An event that is handled was read.
  pub recv_inet_event-read :
      (fuel : ℕ) (m m' : Monitor) (r r' : Radio p)
      → recv_inet_event k l fuel m r ≡ some (m', r')
      → (messages : List (ℕ × List ℕ)) × ((l.recvmsg r.net.world).0 ≡ some messages)
  unfolding recv_inet_event
  recv_inet_event-read fuel m m' r r' e = elim (Option-cases (l.recvmsg r.net.world).0) [
    | inl unread ↦
        let w = (l.recvmsg r.net.world).1 in
        let stuck : ◌≡◌ {A = Option (Monitor × Radio p)} none (some (m', r')) =
          subst
            (λ (o : Option (List (ℕ × List ℕ))).
              (o >>= λ messages. handle_events k l fuel messages m (with_world w r))
              ≡ some (m', r'))
            unread e in
        cc
    | inr (messages, read) ↦ (messages, read)
  ]
