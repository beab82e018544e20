-- ===== src/Rounds/Sound.antt =====
-- The threads of ckernelwifi.cc together: what holds whichever of them takes the next round.
use mathlib.Core.Path.{subst}
use mathlib.Core.Option.{some-injective}
use vwifi.Prelude.{
  ℕ, suc, ◌<◌, ◌≡◌, sym, ◌∙◌, ap, ◌⊎◌, inl, inr, Bool, Bool-cases, true, false, not, Option, some,
  if◌then◌else◌, if_both, if_split,
}
use vwifi.Prelude.Int.{pos}
use vwifi.Platform.{Platform}
use vwifi.Devices.Registered.{IsValid}
use vwifi.Client.{close, connect}
use vwifi.Client.Connection.{connect-Connects}
use vwifi.Kernel.{Kernel, LinkKernel}
use vwifi.Radio.{Radio, with_world}
use vwifi.Radio.Netlink.{dead}
use vwifi.Radio.Connecting.{
  enroll, connect_radio, reconnect_to_server, reconnect_if_lost, manage_server_crash_round,
}
use vwifi.Radio.Reconnected.{IsLinked, success, enroll-IsLinked}
use vwifi.Monitor.{Monitor, get_winterface_infos, recv_inet_event}
use vwifi.Monitor.Steady.{Steady, EndsDumps, infos_lem, recv_inet_event-Ends, recv_inet_event-read}
use vwifi.Rounds.{
  DriverSocket, process_all, round_of, recv_msg_from_hwsim_round, recv_msg_from_server_round,
  winet_update_round, Turn, from_hwsim, from_server, updates, watches_links, watches_driver,
  watches_server,
}
use vwifi.Prelude.Results.{Holds, Holds-bind, Holds-map}
use vwifi.Rounds.Kept.{Keeps, process_all-Keeps, recv_from_server-Keeps}
use vwifi.Radio.Forwarding.{recv_from_server}
use vwifi.Rounds.Loaded.{monitor_hwsim_round-Keeps}

-- The list of devices is valid, and the flag is down or the scheduler watches the connection.
pub record IsSound {p : Platform} (r : Radio p) : Type 0 where
  pub devices : IsValid r.list_winterfaces
  pub linked : (r.connected_to_server ≡ false) ⊎ IsLinked r

-- Rounds of the threads, one after another, in any order.
pub data Rounds {p : Platform} (k : Kernel p) (l : LinkKernel p) (socket : DriverSocket p)
    (hash_uses_port : Bool) (fuel : ℕ) : Radio p → Radio p → Type 0 where
  no_round : {r : Radio p} → Rounds k l socket hash_uses_port fuel r r
  one_more :
      {r r' r₂ : Radio p}
      → Rounds k l socket hash_uses_port fuel r r'
      → Turn k l socket hash_uses_port fuel r' r₂
      → Rounds k l socket hash_uses_port fuel r r₂

module _ {p : Platform} where
  pub Keeps-IsSound : (r r' : Radio p) → Keeps r r' → IsSound r → IsSound r'
  Keeps-IsSound r r' h s = record {
    devices = subst IsValid (sym h.devices) s.devices;
    linked = elim (Bool-cases r'.connected_to_server) [
      | inl t ↦ elim s.linked [
        | inl f ↦ inl (let on = h.flag t in cc)
        | inr (c, (d, e, w)) ↦
            inr (t, (d, ap (λ x. x.master) h.client ∙ e, ap (λ x. x d) h.watched ∙ w))
      ]
      | inr f ↦ inl f
    ];
  }

  pub Steady-IsSound :
      (rank : p.World → ℕ) (r r' : Radio p) → Steady rank r r' → IsSound r → IsSound r'
  Steady-IsSound rank r r' h s = record {
    devices = h.valid s.devices;
    linked = elim s.linked [
      | inl f ↦ inl (h.connected ∙ f)
      | inr (c, (d, e, w)) ↦ inr (
        h.connected ∙ c,
        (d, ap (λ x. x.master) h.client ∙ e, ap (λ x. x.master d) h.scheduler ∙ w),
      )
    ];
  }

  -- The flag after an attempt to connect.
  abbrev pub flagged : Bool × Radio p → Radio p
  flagged (ok, r) = if ok then record r { connected_to_server = true } else r

  module _ (k : Kernel p) where
    round_of-Holds :
        (P : Radio p → Type 0) (work : Radio p → Option (Radio p)) (r : Radio p)
        → P (dead r)
        → P (with_world (k.sleep 1 r.net.world) r)
        → Holds P (work r)
        → Holds (λ x. P x.1) (round_of k work r)
    unfolding round_of
    round_of-Holds P work r ended slept h =
        let Goal = Holds (λ (x : Bool × Radio p). P x.1) in
        if_both Goal (k.interrupted r.net.world) ended (
          if_both Goal (not r.initialized) slept
            (Holds-bind P (λ (x : Bool × Radio p). P x.1) (work r) _ h (λ r' q. q)))

    dead-IsSound : (r : Radio p) → IsSound r → IsSound (dead r)
    unfolding dead
    dead-IsSound r s = record { devices = s.devices; linked = s.linked }

    pub with_world-IsSound : (w : p.World) (r : Radio p) → IsSound r → IsSound (with_world w r)
    with_world-IsSound w r s = record { devices = s.devices; linked = s.linked }

    module _ (b : Bool) where
      pub connect_radio-IsSound :
          (r : Radio p)
          → IsValid r.list_winterfaces
          → r.connected_to_server ≡ false
          → IsSound (flagged (connect_radio k b r))
      unfolding connect_radio enroll
      connect_radio-IsSound r v off =
          let c = connect k r.client r.net in
          let r' : Radio p = record r { client = c.1; net = c.2 } in
          if_split (λ q. IsSound (flagged q)) c.0
            (λ t.
              let (d, e) = success k r.client r.net c (connect-Connects k r.client r.net) t in
              record { devices = v; linked = inr (enroll-IsLinked k r' d b e) })
            (λ f. record { devices = v; linked = inl off })

      reconnect_if_lost-IsSound : (r : Radio p) → IsSound r → IsSound (reconnect_if_lost k b r)
      unfolding reconnect_if_lost reconnect_to_server
      reconnect_if_lost-IsSound r s =
          let (client, n) = close r.client r.net in
          if_split IsSound r.connected_to_server (λ t. s)
            (λ f. connect_radio-IsSound (record r { client = client; net = n }) s.devices f)

      crash_round-IsSound : (r : Radio p) → IsSound r → IsSound (manage_server_crash_round k b r).1
      unfolding manage_server_crash_round
      crash_round-IsSound r s =
          if_both (λ (x : Bool × Radio p). IsSound x.1) (k.interrupted r.net.world)
            (dead-IsSound r s)
            (with_world-IsSound _ (reconnect_if_lost k b r) (reconnect_if_lost-IsSound r s))

    hwsim_round-IsSound :
        (socket : DriverSocket p) (r : Radio p)
        → IsSound r
        → Holds (λ x. IsSound x.1) (recv_msg_from_hwsim_round k socket r)
    unfolding recv_msg_from_hwsim_round
    hwsim_round-IsSound socket r s =
        let (msgs, w) = socket r.net.world in
        round_of-Holds IsSound _ r (dead-IsSound r s) (with_world-IsSound _ r s) (
          Holds-map (Keeps (with_world w r)) IsSound (process_all k msgs (with_world w r))
            (process_all-Keeps k msgs (with_world w r))
            (λ r' h. Keeps-IsSound (with_world w r) r' h (with_world-IsSound w r s)))

    server_round-IsSound :
        (r : Radio p) → IsSound r → Holds (λ x. IsSound x.1) (recv_msg_from_server_round k r)
    unfolding recv_msg_from_server_round
    server_round-IsSound r s =
        round_of-Holds IsSound (recv_from_server k) r (dead-IsSound r s) (with_world-IsSound _ r s)
          (Holds-map (Keeps r) IsSound (recv_from_server k r) (recv_from_server-Keeps k r)
            (λ r' h. Keeps-IsSound r r' h s))

    module _ (l : LinkKernel p) (rank : p.World → ℕ) (law : EndsDumps k l rank) (fuel : ℕ)
        (enough : (w : p.World) → suc (rank w) < fuel) where
      pub infos-IsSound :
          (m : Monitor) (r : Radio p)
          → IsSound r
          → Holds (λ x. IsSound x.2) (get_winterface_infos k l fuel (pos 0) m r)
      infos-IsSound m r s =
          let (ret, m', r', e, h) = infos_lem rank k l law fuel (pos 0) m r (enough r.net.world) in
          subst (Holds (λ x. IsSound x.2)) (sym e) (Steady-IsSound rank r r' h s)

      update_round-IsSound :
          (m : Monitor) (r : Radio p)
          → IsSound r
          → Holds (λ x. IsSound x.2) (winet_update_round k l fuel m r)
      unfolding winet_update_round
      update_round-IsSound m r s =
          let Goal = Holds (λ (x : Bool × Monitor × Radio p). IsSound x.2) in
          if_both Goal (k.interrupted r.net.world) (dead-IsSound r s) (
            if_both Goal (not r.initialized) (with_world-IsSound _ r s) (
              Holds-bind (λ x. IsSound x.2) (λ x. IsSound x.2)
                (get_winterface_infos k l fuel (pos 0) m r) _ (infos-IsSound m r s)
                (λ (ret, m', r') h. with_world-IsSound _ r' h)))

      event-IsSound :
          (m m' : Monitor) (r r' : Radio p)
          → recv_inet_event k l fuel m r ≡ some (m', r')
          → IsSound r
          → IsSound r'
      event-IsSound m m' r r' e s =
          let (messages, read) = recv_inet_event-read rank k l law fuel m m' r r' e in
          let (m₂, r₂, e₂, h) =
            recv_inet_event-Ends rank k l law fuel messages m r (enough r.net.world) read in
          subst IsSound (ap (λ x. x.1) (some-injective (m₂, r₂) (m', r') (sym e₂ ∙ e)))
            (Steady-IsSound rank r r₂ h s)

      module _ (socket : DriverSocket p) (b : Bool) where
        Turn-IsSound : (r r' : Radio p) → Turn k l socket b fuel r r' → IsSound r → IsSound r'
        Turn-IsSound r r' (from_hwsim on e) s =
            subst (Holds (λ x. IsSound x.1)) e (hwsim_round-IsSound socket r s)
        Turn-IsSound r r' (from_server on e) s =
            subst (Holds (λ x. IsSound x.1)) e (server_round-IsSound r s)
        Turn-IsSound r r' (updates on m m' e) s =
            subst (Holds (λ x. IsSound x.2)) e (update_round-IsSound m r s)
        Turn-IsSound r r' (watches_links m m' e) s = event-IsSound m m' r r' e s
        Turn-IsSound r r' (watches_driver on e) s =
            Keeps-IsSound r r'
              (subst (Holds (λ x. Keeps r x.1)) e (monitor_hwsim_round-Keeps k fuel r)) s
        Turn-IsSound r r' (watches_server on e) s =
            subst (λ x. IsSound x.1) e (crash_round-IsSound b r s)

        pub Rounds-IsSound :
            (r r' : Radio p) → IsSound r → Rounds k l socket b fuel r r' → IsSound r'
        Rounds-IsSound r r' s no_round = s
        Rounds-IsSound r r' s (one_more before turn) =
            Turn-IsSound _ _ turn (Rounds-IsSound _ _ s before)
