-- ===== src/Rounds/Loaded.antt =====
-- What the wait for the driver of ckernelwifi.cc leaves as it is.
use vwifi.Prelude.{ℕ, zero, suc, refl, Bool, false, not, if_both}
use vwifi.Prelude.Int.{pos, ltb_ℤ}
use vwifi.Platform.{Platform}
use vwifi.Kernel.{Kernel, register}
use vwifi.Radio.{Radio, with_world, nl_send, send_register_msg}
use vwifi.Radio.Netlink.{
  dead, resolve, is_being_initialized, open_netlink, finish_netlink, sleep_and_resolve,
  wait_for_driver, init_netlink, register_driver, init, monitor_hwsim_round,
}
use vwifi.Prelude.Results.{Holds, Holds-bind, Holds-map}
use vwifi.Rounds.Kept.{Keeps, Keeps-refl, Keeps-trans, only_net, after}

module _ {p : Platform} (k : Kernel p) where
  pub open_netlink-Keeps : (r : Radio p) → Keeps r (open_netlink k r).1
  unfolding open_netlink resolve
  open_netlink-Keeps r =
      let P = λ (x : Bool × Radio p). Keeps r x.1 in
      let w₁ = k.nl_cb_alloc r.net.world in
      let w₂ = k.nl_socket_alloc_cb w₁.1 in
      if_both P (not w₁.0) (only_net r _) (
        if_both P (not w₂.0) (only_net r _) (
          if_both P (k.genl_connect w₂.1).0
            (record { devices = refl; client = refl; watched = refl; flag = λ e. e })
            (only_net r _)))

  pub finish_netlink-Keeps : (r : Radio p) → Keeps r (finish_netlink k r).1
  unfolding finish_netlink
  finish_netlink-Keeps r = only_net r _

  wait_for_driver-Keeps : (fuel : ℕ) (r : Radio p) → Holds (Keeps r) (wait_for_driver k fuel r)
  unfolding wait_for_driver sleep_and_resolve resolve dead
  wait_for_driver-Keeps zero r = tt
  wait_for_driver-Keeps (suc fuel) r =
      let P = Holds (Keeps r) in
      if_both P (not (ltb_ℤ r.family_id (pos 0))) (Keeps-refl r) (
        if_both P (not (is_being_initialized k r)) (Keeps-refl r) (
          if_both P (k.interrupted r.net.world)
            (record { devices = refl; client = refl; watched = refl; flag = λ e. e })
            (after r (sleep_and_resolve k r) _
              (record { devices = refl; client = refl; watched = refl; flag = λ e. e })
              (wait_for_driver-Keeps fuel (sleep_and_resolve k r)))))

  init_netlink-Keeps : (fuel : ℕ) (r : Radio p) → Holds (λ x. Keeps r x.1) (init_netlink k fuel r)
  unfolding init_netlink
  init_netlink-Keeps fuel r =
      let r₁ = (open_netlink k r).1 in
      if_both (Holds (λ (x : Bool × Radio p). Keeps r x.1)) (open_netlink k r).0
        (Holds-bind (Keeps r) (λ (x : Bool × Radio p). Keeps r x.1) (wait_for_driver k fuel r₁) _
          (after r r₁ _ (open_netlink-Keeps r) (wait_for_driver-Keeps fuel r₁))
          (λ r₂ h. Keeps-trans r r₂ _ h (finish_netlink-Keeps r₂)))
        (open_netlink-Keeps r)

  send_register_msg-Keeps : (r : Radio p) → Keeps r (send_register_msg k r).1
  unfolding send_register_msg nl_send
  send_register_msg-Keeps r =
      if_both (λ (x : Bool × Radio p). Keeps r x.1) (k.build r.family_id register r.net.world).0
        (record { devices = refl; client = refl; watched = refl; flag = λ e. e }) (only_net r _)

  pub register_driver-Keeps : (ok : Bool) (r : Radio p) → Keeps r (register_driver k (ok, r)).1
  unfolding register_driver
  register_driver-Keeps ok r =
      let P = λ (x : Bool × Radio p). Keeps r x.1 in
      let (registered, r') = send_register_msg k r in
      let sent = send_register_msg-Keeps r in
      if_both P (not ok) (Keeps-refl r) (
        if_both P registered
          (Keeps-trans r r' _ sent
            (record { devices = refl; client = refl; watched = refl; flag = λ e. e }))
          (Keeps-trans r r' _ sent (only_net r' _)))

  init-Keeps : (fuel : ℕ) (r : Radio p) → Holds (λ x. Keeps r x.1) (init k fuel r)
  unfolding init
  init-Keeps fuel r =
      Holds-bind (λ x. Keeps r x.1) (λ x. Keeps r x.1) (init_netlink k fuel r) _
        (init_netlink-Keeps fuel r)
        (λ (ok, r') h. Keeps-trans r r' _ h (register_driver-Keeps ok r'))

  pub monitor_hwsim_round-Keeps :
      (fuel : ℕ) (r : Radio p) → Holds (λ x. Keeps r x.1) (monitor_hwsim_round k fuel r)
  unfolding monitor_hwsim_round dead
  monitor_hwsim_round-Keeps fuel r =
      let P = Holds (λ (x : Bool × Radio p). Keeps r x.1) in
      let (family, w) = k.genl_ctrl_resolve (k.sleep 1 r.net.world) in
      let r₁ : Radio p = record (with_world w r) { initialized = false } in
      let first : Keeps r r₁ = record {
        devices = refl;
        client = refl;
        watched = refl;
        flag = λ e. e;
      } in
      if_both P (k.interrupted r.net.world)
        (record { devices = refl; client = refl; watched = refl; flag = λ e. e })
        (if_both P (ltb_ℤ family (pos 0))
          (Holds-map (λ x. Keeps r₁ x.1) (λ x. Keeps r x.1) (init k fuel r₁) (init-Keeps fuel r₁)
            (λ x h. Keeps-trans r r₁ x.1 first h))
          (only_net r _))
