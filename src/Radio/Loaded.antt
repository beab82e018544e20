-- ===== src/Radio/Loaded.antt =====
-- When ckernelwifi.cc takes the driver for loaded.
use vwifi.Prelude.{ℕ, zero, suc, ◌<◌, ◌≡◌, refl, ap, ◌∙◌, true, false, some, [], ◌∷◌, ◌++◌, arith}
use vwifi.Prelude.Int.{ℤ, pos, negsuc, ltb_ℤ}
use vwifi.Platform.{Platform}
use vwifi.Kernel.{Kernel, Message, register}
use vwifi.Radio.{Radio, with_world, nl_send, send_register_msg}
use vwifi.Radio.Netlink.{
  resolve, is_being_initialized, open_netlink, finish_netlink, sleep_and_resolve,
  wait_for_driver_first, wait_for_driver, init_netlink_first, init_netlink, register_driver, init,
}
use vwifi.Radio.Requests.{Builds}

-- The netlink socket can be opened in world `w`, which leads to `w'`.
pub record Opens {p : Platform} (k : Kernel p) (w w' : p.World) : Type 0 where
  pub has_cb : (k.nl_cb_alloc w).0 ≡ true
  pub has_socket : (k.nl_socket_alloc_cb (k.nl_cb_alloc w).1).0 ≡ true
  pub connects : k.genl_connect (k.nl_socket_alloc_cb (k.nl_cb_alloc w).1).1 ≡ (true, w')

-- The driver is found at the first of `n` further tries, a second apart, with no stop before.
abbrev pub Appears : (p : Platform) → Kernel p → ℕ → p.World → Type 0
Appears p k zero w = (f : ℕ) × ((k.genl_ctrl_resolve w).0 ≡ pos f)
Appears p k (suc n) w =
    (ltb_ℤ (k.genl_ctrl_resolve w).0 (pos 0) ≡ true)
    × (k.initialization_stopped (k.genl_ctrl_resolve w).1 ≡ false)
    × Appears p k n (k.sleep 1 (k.genl_ctrl_resolve w).1)

module _ {p : Platform} (k : Kernel p) where
  opens :
      (r : Radio p) (w : p.World)
      → Opens k r.net.world w
      → open_netlink k r ≡ (true, resolve k (with_world w r))
  unfolding open_netlink
  opens r w o = ground (arith, o.has_cb, o.has_socket, o.connects)

  waits :
      (n fuel : ℕ) (r : Radio p)
      → n < fuel
      → r.being_initialized ≡ true
      → Appears p k n r.net.world
      → (r' : Radio p) × (wait_for_driver_first k fuel (resolve k r) ≡ some (true, r'))
        × ((f : ℕ) × (r'.family_id ≡ pos f))
  unfolding wait_for_driver_first resolve sleep_and_resolve is_being_initialized
  waits n zero r h b a = elim h [ ]
  waits zero (suc fuel) r h b (f, e) = (resolve k r, ground (arith, e), (f, e))
  waits (suc n) (suc fuel) r h b (e, s, a) =
      let w = k.sleep 1 (k.genl_ctrl_resolve r.net.world).1 in
      let (r', e', g) = waits n fuel (with_world w (resolve k r)) (omega arith) b a in
      (r', ground (arith, e, s, b, e'), g)

  pub init_netlink_first-Loads :
      (n fuel : ℕ) (r : Radio p) (w : p.World)
      → n < fuel
      → r.being_initialized ≡ true
      → Opens k r.net.world w
      → Appears p k n w
      → (r' : Radio p) × (init_netlink_first k fuel r ≡ some (true, r'))
        × ((f : ℕ) × (r'.family_id ≡ pos f))
  unfolding init_netlink_first finish_netlink
  init_netlink_first-Loads n fuel r w h b o a =
      let (r', e, g) = waits n fuel (with_world w r) h b a in
      ((finish_netlink k r').1, rw (opens r w o, e), g)

  -- Behind `start`, the loop of `init_netlink` does not wait.
  passes :
      (fuel : ℕ) (r : Radio p)
      → r.being_initialized ≡ false
      → wait_for_driver k (suc fuel) (resolve k r) ≡ some (resolve k r)
  unfolding wait_for_driver is_being_initialized resolve
  passes fuel r off = ground (arith, off)

  pub registers :
      (r : Radio p)
      → Builds p k
      → ((family : ℤ) (m : Message) (w : p.World) → (k.nl_send_auto family m w).0 ≡ true)
      → (r' : Radio p) × (register_driver k (true, r) ≡ (true, r'))
        × (r'.initialized ≡ true)
        × (r'.family_id ≡ r.family_id)
        × (r'.requests ≡ r.requests ++ (r.family_id, register) ∷ [])
  unfolding register_driver send_register_msg nl_send
  registers r builds sends =
      let w = (k.build r.family_id register r.net.world).1 in
      (
        record (nl_send k register (with_world w r)).1 { initialized = true },
        ground (arith, builds r.family_id register r.net.world, sends r.family_id register w),
        refl,
        refl,
        refl,
      )

  -- Where messages can be built and sent and the netlink socket can be opened, init with
  -- _being_initialized cleared and a driver that is not found does not wait: it succeeds, sets
  -- _initialized, keeps the negative family, and has asked this family once to register.
  pub init-WithoutDriver :
      (fuel m : ℕ) (r : Radio p) (w : p.World)
      → Builds p k
      → ((family : ℤ) (m : Message) (w : p.World) → (k.nl_send_auto family m w).0 ≡ true)
      → r.being_initialized ≡ false
      → Opens k r.net.world w
      → (k.genl_ctrl_resolve w).0 ≡ negsuc m
      → (r' : Radio p) × (init k (suc fuel) r ≡ some (true, r'))
        × (r'.initialized ≡ true)
        × (r'.family_id ≡ negsuc m)
        × (r'.requests ≡ r.requests ++ (negsuc m, register) ∷ [])
  unfolding init init_netlink finish_netlink resolve
  init-WithoutDriver fuel m r w builds sends off o e =
      let r₁ = (finish_netlink k (resolve k (with_world w r))).1 in
      let (r', e', i, f, q) = registers r₁ builds sends in
      (
        r',
        rw (opens r w o, passes fuel (with_world w r) off) (ap some e'),
        i,
        f ∙ e,
        q ∙ ap (λ (x : ℤ). r.requests ++ (x, register) ∷ []) e,
      )
