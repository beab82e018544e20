-- ===== src/Radio/Netlink.antt =====
-- ckernelwifi.cc, init_netlink_first, init_netlink, init_first, init and the round of
-- monitor_hwsim_loop: the netlink socket of the driver. `none` means that the fuel of a loop that
-- waits for the driver ran out.
use vwifi.Prelude.{
  ℕ, zero, suc, Bool, true, false, not, ◌&&◌, Option, none, some, ◌>>=◌, if◌then◌else◌,
}
use vwifi.Prelude.Int.{pos, ltb_ℤ, ◌-ℤ◌}
use vwifi.Platform.{Platform}
use vwifi.Kernel.{Kernel}
use vwifi.Radio.{Radio, with_world, send_register_msg}

module _ {p : Platform} where
  -- AsyncTask::dead.
  unfoldable pub dead : Radio p → Radio p
  dead r = record r { number_thread = r.number_thread -ℤ pos 1 }

module _ {p : Platform} (k : Kernel p) where
  unfoldable pub resolve : Radio p → Radio p
  resolve r =
      let (family, w) = k.genl_ctrl_resolve r.net.world in
      record (with_world w r) { family_id = family }

  unfoldable pub is_being_initialized : Radio p → Bool
  is_being_initialized r = r.being_initialized && not (k.initialization_stopped r.net.world)

  -- The beginning that init_netlink_first and init_netlink share.
  unfoldable pub open_netlink : Radio p → Bool × Radio p
  open_netlink r =
      let (has_cb, w₁) = k.nl_cb_alloc r.net.world in
      let (has_socket, w₂) = k.nl_socket_alloc_cb w₁ in
      let (connected, w₃) = k.genl_connect w₂ in
      if not has_cb
      then (false, with_world w₁ r)
      else if not has_socket
      then (false, with_world (k.put_callbacks w₂) r)
      else if connected
      then (true, resolve (with_world w₃ r))
      else (false, with_world (k.release w₃) r)

  -- Their end: a timeout that cannot be set frees the socket, and counts as a success.
  unfoldable pub finish_netlink : Radio p → Bool × Radio p
  finish_netlink r =
      let (ok, w) = k.set_timeout r.net.world in
      (true, with_world (if ok then w else k.release w) r)

  unfoldable pub sleep_and_resolve : Radio p → Radio p
  sleep_and_resolve r = resolve (with_world (k.sleep 1 r.net.world) r)

  -- The loop of init_netlink_first: whether the family was found.
  unfoldable pub wait_for_driver_first : ℕ → Radio p → Option (Bool × Radio p)
  wait_for_driver_first zero r = none
  wait_for_driver_first (suc fuel) r =
      let rest = wait_for_driver_first fuel (sleep_and_resolve r) in
      if ltb_ℤ r.family_id (pos 0)
      then (if is_being_initialized r then rest else some (false, r))
      else some (true, r)

  -- The loop of init_netlink, which goes on behind it in any case.
  unfoldable pub wait_for_driver : ℕ → Radio p → Option (Radio p)
  wait_for_driver zero r = none
  wait_for_driver (suc fuel) r =
      let rest = wait_for_driver fuel (sleep_and_resolve r) in
      if not (ltb_ℤ r.family_id (pos 0))
      then some r
      else if not (is_being_initialized r)
      then some r
      else if k.interrupted r.net.world
      then some (dead r)
      else rest

  unfoldable pub init_netlink_first : ℕ → Radio p → Option (Bool × Radio p)
  init_netlink_first fuel r =
      let (opened, r₁) = open_netlink r in
      let waited = wait_for_driver_first fuel r₁ >>= λ (found, r₂).
      some (if found then finish_netlink r₂ else (false, r₂)) in
      if opened then waited else some (false, r₁)

  unfoldable pub init_netlink : ℕ → Radio p → Option (Bool × Radio p)
  init_netlink fuel r =
      let (opened, r₁) = open_netlink r in
      let waited = wait_for_driver fuel r₁ >>= λ r₂. some (finish_netlink r₂) in
      if opened then waited else some (false, r₁)

  -- What init_first and init do behind the netlink.
  unfoldable pub register_driver : Bool × Radio p → Bool × Radio p
  register_driver (ok, r) =
      let (registered, r') = send_register_msg k r in
      if not ok
      then (false, r)
      else if registered
      then (true, record r' { initialized = true })
      else (false, with_world (k.release r'.net.world) r')

  unfoldable pub init_first : ℕ → Radio p → Option (Bool × Radio p)
  init_first fuel r = init_netlink_first fuel r >>= λ a. some (register_driver a)

  unfoldable pub init : ℕ → Radio p → Option (Bool × Radio p)
  init fuel r = init_netlink fuel r >>= λ a. some (register_driver a)

  -- A round of monitor_hwsim_loop, with the family that it resolves on a socket of its own: whether
  -- the loop goes on.
  unfoldable pub monitor_hwsim_round : ℕ → Radio p → Option (Bool × Radio p)
  monitor_hwsim_round fuel r =
      let (family, w) = k.genl_ctrl_resolve (k.sleep 1 r.net.world) in
      let unloaded = init fuel (record (with_world w r) { initialized = false }) in
      if k.interrupted r.net.world
      then some (false, dead r)
      else if ltb_ℤ family (pos 0)
      then unloaded
      else some (true, with_world w r)
