-- ===== src/Radio/Notified.antt =====
-- How the notifications that ckernelwifi.cc handles change the devices it knows.
use vwifi.Prelude.{ℕ, refl, inl, inr, Option-cases, Option, none, some, List}
use vwifi.Prelude.Int.{ℤ}
use vwifi.Prelude.Ordered.{update}
use vwifi.Platform.{Platform}
use vwifi.Devices.{WirelessDevice, set_machwsim}
use vwifi.Devices.Registered.{
  IsValid, Implements, devices_of, add_device-Implements, delete_device-Implements,
}
use vwifi.Kernel.{Kernel}
use vwifi.Radio.{Radio}
use vwifi.Radio.Notices.{get_pmaddr, handle_new_winet_notification, handle_del_winet_notification}

-- The device as it is kept, if its permanent address could be read.
abbrev pub entry :
    WirelessDevice → Option (List ℕ) → (ℤ → Option WirelessDevice) → ℤ → Option WirelessDevice
entry d none f = f
entry d (some addr) f = update f d.index (some (set_machwsim addr d))

module _ {p : Platform} where
  pub handle_new-Implements :
      (k : Kernel p) (d : WirelessDevice) (r : Radio p)
      → IsValid r.list_winterfaces
      → Implements
          (entry d (get_pmaddr k d.name r.net).0 (devices_of r.list_winterfaces))
          (handle_new_winet_notification k d r).list_winterfaces
  unfolding handle_new_winet_notification
  handle_new-Implements k d r v = elim (Option-cases (get_pmaddr k d.name r.net).0) [
    | inl e ↦ rw (e, handle_new_winet_notification) (record { valid = v; devices = refl })
    | inr (addr, e) ↦
        rw (e, handle_new_winet_notification)
          (add_device-Implements (set_machwsim addr d) r.list_winterfaces v)
  ]

  pub handle_del-Implements :
      (d : WirelessDevice) (r : Radio p)
      → IsValid r.list_winterfaces
      → Implements
          (update (devices_of r.list_winterfaces) d.index none)
          (handle_del_winet_notification d r).list_winterfaces
  unfolding handle_del_winet_notification
  handle_del-Implements d r v = delete_device-Implements d r.list_winterfaces v
