-- ===== src/Rounds/Started.antt =====
-- CKernelWifi::start of ckernelwifi.cc and the rounds of the threads behind it.
use mathlib.Core.Path.{subst}
use vwifi.Devices.Registered.{IsValid}
use vwifi.Client.{connect}
use vwifi.Prelude.{
  inl, inr, sym, ◌∙◌, Bool-cases, ℕ, zero, suc, ◌<◌, ◌≡◌, refl, Bool, true, false, not, some,
  if_both, if_split,
}
use vwifi.Prelude.Int.{ℤ, pos, ltb_ℤ}
use vwifi.Platform.{Platform}
use vwifi.Kernel.{Kernel, LinkKernel}
use vwifi.Radio.{Radio, with_world}
use vwifi.Radio.Netlink.{
  is_being_initialized, sleep_and_resolve, resolve, open_netlink, wait_for_driver_first,
  init_netlink_first, init_first,
}
use vwifi.Radio.Connecting.{enroll, connect_radio, connect_first, is_being_started}
use vwifi.Monitor.{Monitor, new_monitor, get_winterface_infos}
use vwifi.Monitor
use vwifi.Monitor.Steady.{EndsDumps, infos_lem}
use vwifi.Start.{nl80211_init, monitor_wireless_device, be_initialized, start_monitored, start}
use vwifi.Rounds.{DriverSocket}
use vwifi.Prelude.Results.{Holds, Holds-bind, Holds-map}
use vwifi.Rounds.Kept.{Keeps, Keeps-refl, Keeps-trans, only_net}
use vwifi.Rounds.Loaded.{open_netlink-Keeps, finish_netlink-Keeps, register_driver-Keeps}
use vwifi.Rounds.Sound.{IsSound, flagged, connect_radio-IsSound, Rounds, Rounds-IsSound}

module _ {p : Platform} where
  -- The list of devices is valid, and the flag is down.
  abbrev pub IsUnlinked : Radio p → Type 0
  IsUnlinked r = IsValid r.list_winterfaces × (r.connected_to_server ≡ false)

  Keeps-IsUnlinked : (r r' : Radio p) → Keeps r r' → IsUnlinked r → IsUnlinked r'
  Keeps-IsUnlinked r r' h (v, off) = (
    subst IsValid (sym h.devices) v,
    elim (Bool-cases r'.connected_to_server) [ inl t ↦ let on = h.flag t in cc | inr f ↦ f ],
  )

module _ {p : Platform} (k : Kernel p) where
  wait_for_driver_first-Keeps :
      (fuel : ℕ) (r : Radio p) → Holds (λ x. Keeps r x.1) (wait_for_driver_first k fuel r)
  unfolding wait_for_driver_first sleep_and_resolve resolve
  wait_for_driver_first-Keeps zero r = tt
  wait_for_driver_first-Keeps (suc fuel) r =
      let P = Holds (λ (x : Bool × Radio p). Keeps r x.1) in
      let r' = sleep_and_resolve k r in
      let near : Keeps r r' = record {
        devices = refl;
        client = refl;
        watched = refl;
        flag = λ e. e;
      } in
      if_both P (ltb_ℤ r.family_id (pos 0))
        (if_both P (is_being_initialized k r)
          (Holds-map (λ x. Keeps r' x.1) (λ x. Keeps r x.1) (wait_for_driver_first k fuel r')
            (wait_for_driver_first-Keeps fuel r') (λ x h. Keeps-trans r r' x.1 near h))
          (Keeps-refl r))
        (Keeps-refl r)

  init_netlink_first-Keeps :
      (fuel : ℕ) (r : Radio p) → Holds (λ x. Keeps r x.1) (init_netlink_first k fuel r)
  unfolding init_netlink_first
  init_netlink_first-Keeps fuel r =
      let r₁ = (open_netlink k r).1 in
      let P = λ (x : Bool × Radio p). Keeps r x.1 in
      if_both (Holds P) (open_netlink k r).0
        (Holds-bind (λ x. Keeps r₁ x.1) P (wait_for_driver_first k fuel r₁) _
          (wait_for_driver_first-Keeps fuel r₁)
          (λ (found, r₂) h.
            let h₂ = Keeps-trans r r₁ r₂ (open_netlink-Keeps k r) h in
            if_both P found (Keeps-trans r r₂ _ h₂ (finish_netlink-Keeps k r₂)) h₂))
        (open_netlink-Keeps k r)

  init_first-Keeps : (fuel : ℕ) (r : Radio p) → Holds (λ x. Keeps r x.1) (init_first k fuel r)
  unfolding init_first
  init_first-Keeps fuel r =
      Holds-bind (λ x. Keeps r x.1) (λ x. Keeps r x.1) (init_netlink_first k fuel r) _
        (init_netlink_first-Keeps fuel r)
        (λ (ok, r') h. Keeps-trans r r' _ h (register_driver-Keeps k ok r'))

  be_initialized-Keeps :
      (fuel : ℕ) (r : Radio p) → Holds (λ x. Keeps r x.1) (be_initialized k fuel r)
  unfolding be_initialized
  be_initialized-Keeps fuel r =
      let r' : Radio p = record r { being_initialized = true } in
      let kept : Keeps r r' = record {
        devices = refl;
        client = refl;
        watched = refl;
        flag = λ e. e;
      } in
      if_both (Holds (λ (x : Bool × Radio p). Keeps r x.1)) r.initialized kept (
        Holds-map (λ x. Keeps r' x.1) (λ x. Keeps r x.1) (init_first k fuel r')
          (init_first-Keeps fuel r') (λ x h. Keeps-trans r r' x.1 kept h))

  connect_radio-IsUnlinked :
      (b : Bool) (r : Radio p)
      → IsUnlinked r
      → IsUnlinked (record (connect_radio k b r).1 { connected_to_server = r.connected_to_server })
        × ((connect_radio k b r).1.connected_to_server ≡ r.connected_to_server)
  unfolding connect_radio enroll
  connect_radio-IsUnlinked b r u =
      let c = connect k r.client r.net in
      if_both
        (λ (q : Bool × Radio p).
          IsUnlinked (record q.1 { connected_to_server = r.connected_to_server })
          × (q.1.connected_to_server ≡ r.connected_to_server))
        c.0 (u, refl) (u, refl)

  connect_first-IsSound :
      (b : Bool) (fuel : ℕ) (r : Radio p)
      → IsUnlinked r
      → Holds (λ x. IsSound x.1) (connect_first k b fuel r)
  unfolding connect_first
  connect_first-IsSound b zero r u = tt
  connect_first-IsSound b (suc fuel) r (v, off) =
      let (ok, r') = connect_radio k b r in
      let ((v', z), c) = connect_radio-IsUnlinked b r (v, off) in
      let Goal = Holds (λ (x : Bool × Radio p). IsSound x.1) in
      if_split Goal ok
        (λ t. subst (λ o. IsSound (flagged (o, r'))) t (connect_radio-IsSound k b r v off))
        (λ f.
          if_both Goal (is_being_started k b r')
            (connect_first-IsSound b fuel (with_world (k.sleep 2 r'.net.world) r') (v', c ∙ off))
            (record { devices = v'; linked = inl (c ∙ off) }))

module _ {p : Platform} (l : LinkKernel p) where
  nl80211_init-Keeps : (r : Radio p) → Keeps r (nl80211_init l r).1
  unfolding nl80211_init
  nl80211_init-Keeps r =
      let P = λ (x : ℤ × Radio p). Keeps r x.1 in
      let w₁ = l.nl_socket_alloc r.net.world in
      let w₂ = l.genl_connect w₁.1 in
      let w₃ = l.resolve_nl80211 w₂.1 in
      let w₄ = l.nl_cb_alloc w₃.1 in
      let w₅ = l.nl_cb_alloc w₄.1 in
      if_both P (not w₁.0) (only_net r _) (
        if_both P (not w₂.0) (only_net r _) (
          if_both P (ltb_ℤ w₃.0 (pos 0)) (only_net r _) (
            if_both P (not w₄.0) (only_net r _)
              (if_both P (not w₅.0) (only_net r _) (only_net r _)))))

  monitor-Keeps : (r : Radio p) → Keeps r (monitor_wireless_device l r).1
  unfolding monitor_wireless_device
  monitor-Keeps r =
      let P = λ (x : Bool × Radio p). Keeps r x.1 in
      let w₁ = l.socket r.net.world in
      let w₂ = l.bind w₁.1 in
      let r₂ = with_world w₂.1 r in
      let kept = Keeps-trans r r₂ _ (only_net r _) (nl80211_init-Keeps r₂) in
      if_both P (not w₁.0) (only_net r _) (
        if_both P (not w₂.0) (only_net r _)
          (if_both P (ltb_ℤ (nl80211_init l r₂).0 (pos 0)) kept kept))

module _ {p : Platform} (k : Kernel p) (l : LinkKernel p) (rank : p.World → ℕ)
    (law : EndsDumps k l rank) (fuel : ℕ) (enough : (w : p.World) → suc (rank w) < fuel)
    (b : Bool) where
  infos-IsUnlinked :
      (m : Monitor) (r : Radio p)
      → IsUnlinked r
      → Holds (λ x. IsUnlinked x.2) (get_winterface_infos k l fuel (pos 0) m r)
  infos-IsUnlinked m r (v, off) =
      let (ret, m', r', e, h) = infos_lem rank k l law fuel (pos 0) m r (enough r.net.world) in
      subst (Holds (λ x. IsUnlinked x.2)) (sym e) (h.valid v, h.connected ∙ off)

  start_monitored-IsSound :
      (r : Radio p) → IsUnlinked r → Holds (λ x. IsSound x.2) (start_monitored k l b fuel r)
  unfolding start_monitored
  start_monitored-IsSound r u =
      let Goal = Holds (λ (x : Bool × Monitor × Radio p). IsSound x.2) in
      let r₁ = (monitor_wireless_device l r).1 in
      let u₁ = Keeps-IsUnlinked r r₁ (monitor-Keeps l r) u in
      if_both Goal (monitor_wireless_device l r).0
        (Holds-bind (λ x. IsUnlinked x.2) (λ x. IsSound x.2)
          (get_winterface_infos k l fuel (pos 0) (Monitor.start new_monitor).1 r₁) _
          (infos-IsUnlinked _ r₁ u₁)
          (λ (ret, m', r₂) u₂.
            Holds-bind (λ x. IsSound x.1) (λ x. IsSound x.2)
              (connect_first k b fuel (record r₂ { being_started = true })) _
              (connect_first-IsSound k b fuel (record r₂ { being_started = true }) u₂)
              (λ (ok, r₃) s.
                if_both IsSound ok (record { devices = s.devices; linked = s.linked }) s)))
        (record { devices = u₁.0; linked = inl u₁.1 })

  start-IsSound : (r : Radio p) → IsUnlinked r → Holds (λ x. IsSound x.2) (start k l b fuel r)
  unfolding start
  start-IsSound r u =
      Holds-bind (λ x. Keeps r x.1) (λ x. IsSound x.2) (be_initialized k fuel r) _
        (be_initialized-Keeps k fuel r)
        (λ (ok, r') h.
          let (v, off) = Keeps-IsUnlinked r r' h u in
          if_both (Holds (λ (x : Bool × Monitor × Radio p). IsSound x.2)) ok
            (start_monitored-IsSound (record r' { being_initialized = false }) (v, off))
            (record { devices = v; linked = inl off }))

  module _ (socket : DriverSocket p) where
    -- Where a rank of the network, below the fuel by more than one, bounds how many readings of a
    -- dump are without its end: if start comes to its threads from a client with a valid list of
    -- devices and its flag down, then after any rounds of the loops of its threads and events of
    -- its interfaces, one after another in any order, the list of devices is valid, each device
    -- once and under its own index, and the flag is down or the client holds a descriptor that the
    -- scheduler watches.
    pub Rounds-after_start :
        (m : Monitor) (r r₁ r₂ : Radio p)
        → IsUnlinked r
        → start k l b fuel r ≡ some (true, m, r₁)
        → Rounds k l socket b fuel r₁ r₂
        → IsSound r₂
    Rounds-after_start m r r₁ r₂ u e rounds =
        Rounds-IsSound k l rank law fuel enough socket b r₁ r₂
          (subst (Holds (λ x. IsSound x.2)) e (start-IsSound r u)) rounds
