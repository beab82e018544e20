-- ===== src/Radio/Notices.antt =====
-- ckernelwifi.cc, get_pmaddr and the handlers of the notifications of MonitorWirelessDevice.
use vwifi.Prelude.{ℕ, Option, none, some, List, [], ◌∷◌, ◌++◌, ◌==◌, if◌then◌else◌, length}
use vwifi.Platform.{Platform, Net, closed}
use vwifi.Devices.{WirelessDevice, set_machwsim, add_device, delete_device}
use vwifi.Kernel.{Kernel}
use vwifi.Radio.{Radio, eth_alen}

module _ {p : Platform} (k : Kernel p) where
  -- The ioctl of `get_pmaddr`; the socket is closed only where it succeeds.
  unfoldable pub ask_address : ℕ → List ℕ → Net p → Option (List ℕ) × Net p
  ask_address sock ifname n =
      let (ret, w) = k.permanent_address sock ifname n.world in
      let n' : Net p = record { world = w; calls = n.calls } in
      let n'' : Net p = record { world = p.close sock w; calls = n.calls ++ closed sock ∷ [] } in
      elim ret [
        | none ↦ (none, n')
        | some addr ↦ if length addr == eth_alen then (some addr, n'') else (none, n')
      ]

  -- `none` for 0, which leaves `paddr` as it was.
  unfoldable pub get_pmaddr : List ℕ → Net p → Option (List ℕ) × Net p
  get_pmaddr ifname n =
      let (allocated, w) = k.malloc n.world in
      let (sock, w') = k.datagram_socket w in
      let n' : Net p = record n { world = w' } in
      let asked : Option (List ℕ) × Net p = elim sock [
        | none ↦ (none, n')
        | some d ↦ ask_address d ifname n'
      ] in
      if allocated then asked else (none, record n { world = w })

  -- `handle_new_winet_notification` and `handle_init_winet_notification`, which do the same.
  unfoldable pub handle_new_winet_notification : WirelessDevice → Radio p → Radio p
  handle_new_winet_notification d r =
      let (paddr, n) = get_pmaddr d.name r.net in
      elim paddr [
        | none ↦ record r { net = n }
        | some addr ↦ record r {
          net = n;
          list_winterfaces = add_device (set_machwsim addr d) r.list_winterfaces;
        }
      ]

module _ {p : Platform} where
  unfoldable pub handle_del_winet_notification : WirelessDevice → Radio p → Radio p
  handle_del_winet_notification d r = record r {
    list_winterfaces = delete_device d r.list_winterfaces;
  }
