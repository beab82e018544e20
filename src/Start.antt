-- ===== src/Start.antt =====
-- ckernelwifi.cc, CKernelWifi::start up to the start of its threads, with the constructor of
-- MonitorWirelessDevice in cmonwirelessdevice.cc. `none` means that the fuel of a loop ran out.
pub mod Linked
use vwifi.Prelude.{ℕ, Bool, true, false, not, Option, some, ◌>>=◌, if◌then◌else◌}
use vwifi.Prelude.Int.{ℤ, pos, negsuc, ltb_ℤ}
use vwifi.Platform.{Platform}
use vwifi.Kernel.{Kernel, LinkKernel}
use vwifi.Radio.{Radio, with_world}
use vwifi.Radio.Netlink.{init_first}
use vwifi.Radio.Connecting.{connect_first}
use vwifi.Monitor.{Monitor, new_monitor, get_winterface_infos}
use vwifi.Monitor

module _ {p : Platform} (l : LinkKernel p) where
  -- -12, -67 and -2 are -ENOMEM, -ENOLINK and -ENOENT.
  unfoldable pub nl80211_init : Radio p → ℤ × Radio p
  nl80211_init r =
      let (allocated, w₁) = l.nl_socket_alloc r.net.world in
      let (connected, w₂) = l.genl_connect w₁ in
      let (id, w₃) = l.resolve_nl80211 w₂ in
      let (has_cb, w₄) = l.nl_cb_alloc w₃ in
      let (has_cb1, w₅) = l.nl_cb_alloc w₄ in
      if not allocated
      then (negsuc 11, with_world w₁ r)
      else if not connected
      then (negsuc 66, with_world (l.release w₂) r)
      else if ltb_ℤ id (pos 0)
      then (negsuc 1, with_world (l.release w₃) r)
      else if not has_cb
      then (negsuc 11, with_world (l.release w₄) r)
      else if not has_cb1
      then (negsuc 11, with_world (l.release w₅) r)
      else (id, with_world w₅ r)

  -- The constructor: whether it ends without an exception.
  unfoldable pub monitor_wireless_device : Radio p → Bool × Radio p
  monitor_wireless_device r =
      let (has_socket, w₁) = l.socket r.net.world in
      let (bound, w₂) = l.bind w₁ in
      let (id, r') = nl80211_init (with_world w₂ r) in
      if not has_socket
      then (false, with_world w₁ r)
      else if not bound
      then (false, with_world w₂ r)
      else if ltb_ℤ id (pos 0)
      then (false, r')
      else (true, r')

module _ {p : Platform} (k : Kernel p) where
  unfoldable pub be_initialized : ℕ → Radio p → Option (Bool × Radio p)
  be_initialized fuel r =
      let r' : Radio p = record r { being_initialized = true } in
      if r.initialized then some (true, r') else init_first k fuel r'

module _ {p : Platform} (k : Kernel p) (l : LinkKernel p) (hash_uses_port : Bool) where
  -- From the monitor on, up to the threads.
  unfoldable pub start_monitored : ℕ → Radio p → Option (Bool × Monitor × Radio p)
  start_monitored fuel r =
      let (built, r₁) = monitor_wireless_device l r in
      let (runs, m) = Monitor.start new_monitor in
      let asked = get_winterface_infos k l fuel (pos 0) m r₁ >>= λ (ret, m', r₂).
      connect_first k hash_uses_port fuel (record r₂ { being_started = true }) >>= λ (ok, r₃).
      some (ok, m', if ok then record r₃ { being_started = false } else r₃) in
      if built then asked else some (false, new_monitor, r₁)

  -- Whether it returns 1, once its threads have ended.
  unfoldable pub start : ℕ → Radio p → Option (Bool × Monitor × Radio p)
  start fuel r = be_initialized k fuel r >>= λ (ok, r').
      if ok
      then start_monitored fuel (record r' { being_initialized = false })
      else some (false, new_monitor, r')
