-- ===== src/Monitor.antt =====
-- cmonwirelessdevice.cc: MonitorWirelessDevice, which tells CKernelWifi of its interfaces. The
-- callbacks are those that CKernelWifi::start sets. `none` means that the fuel of a loop ran out, or
-- that memory is read that nothing has written.
pub mod Steady
use vwifi.Prelude.{
  ℕ, zero, suc, Bool, true, false, not, ◌&&◌, Option, none, some, ◌>>=◌, List, [], ◌∷◌, ◌==◌,
  if◌then◌else◌, take,
}
use vwifi.Prelude.Int.{ℤ, pos, negsuc}
use vwifi.Prelude.Bytes.{signed}
use vwifi.Prelude.Ordered.{==_ℤ}
use vwifi.Platform.{Platform}
use vwifi.Devices.{WirelessDevice, wireless_device, checkif_wireless_device}
use vwifi.Kernel.{Kernel, LinkKernel, InterfaceReply, Reply, valid, finish}
use vwifi.Radio.{Radio, eth_alen, with_world}
use vwifi.Radio.Notices.{handle_new_winet_notification, handle_del_winet_notification}

pub record Monitor : Type 0 where
  pub started : Bool
  pub outside_loop : Bool
  pub init_interfaces : Bool
  pub err : ℕ

unfoldable pub new_monitor : Monitor
new_monitor = record { started = false; outside_loop = true; init_interfaces = false; err = 0 }

-- `start`: whether a thread for `main_loop` begins.
unfoldable pub start : Monitor → Bool × Monitor
start m =
    if m.started
    then (false, m)
    else if m.outside_loop
    then (true, record m { started = true })
    else (false, m)

unfoldable pub stop : Monitor → Monitor
stop m = record m { started = false }

-- IFLA_ADDRESS, IFLA_IFNAME and IFLA_MAX do not stand in the repository, and NLMSG_DONE,
-- RTM_NEWLINK and RTM_DELLINK neither: these are the numbers of the kernel's headers.
abbrev pub ifla_address : ℕ
ifla_address = 1

abbrev pub ifla_ifname : ℕ
ifla_ifname = 3

abbrev pub rtm_newlink : ℕ
rtm_newlink = 16

abbrev pub rtm_dellink : ℕ
rtm_dellink = 17

-- The table of the attributes, at one type: the last attribute of that type.
unfoldable pub tb : ℕ → List (ℕ × List ℕ) → Option (List ℕ)
tb type' [] = none
tb type' ((t, bytes) ∷ rest) = elim (tb type' rest) [
  | some later ↦ some later
  | none ↦ if t == type' then some bytes else none
]

-- A device, if no attribute that is needed is missing.
unfoldable pub device_of_reply : InterfaceReply → Option WirelessDevice
device_of_reply a = do
  ifname ← a.ifname
  ifindex ← a.ifindex
  mac ← a.mac
  iftype ← a.iftype
  let txp = elim a.tx_power_level as (λ _. ℕ) [ none ↦ 0 | some t ↦ t ]
  some (wireless_device ifname (signed 32 ifindex) iftype (take eth_alen mac) (signed 32 txp))

module _ {p : Platform} (l : LinkKernel p) where
  -- The device of a link message; an address that is missing is six bytes never written.
  unfoldable pub device_of_link : List ℕ → Radio p → Option WirelessDevice
  device_of_link h r = do
    name ← tb ifla_ifname (l.link_attributes h)
    let (index, type') = l.link_info h
    let macaddr = elim (tb ifla_address (l.link_attributes h)) as (λ _. List ℕ) [
      | none ↦ p.uninit eth_alen r.net.world
      | some bytes ↦ take eth_alen bytes
    ]
    some (wireless_device name index type' macaddr (pos 0))

module _ {p : Platform} (k : Kernel p) (l : LinkKernel p) where
  -- The first report goes to `_initinet_cb`, the others to `_newinet_cb`, which do the same.
  unfoldable pub recv_winterface_infos : InterfaceReply → Monitor → Radio p → Monitor × Radio p
  recv_winterface_infos a m r = elim (device_of_reply a) [
    | none ↦ (m, r)
    | some d ↦ (record m { init_interfaces = true }, handle_new_winet_notification k d r)
  ]

  -- The callbacks of one `nl_recvmsgs`.
  unfoldable pub handle_replies : List Reply → Monitor → Radio p → Monitor × Radio p
  handle_replies [] m r = (m, r)
  handle_replies (valid a ∷ rest) m r =
      let (m', r') = recv_winterface_infos a m r in handle_replies rest m' r'
  handle_replies (finish ∷ rest) m r = handle_replies rest (record m { err = 0 }) r

  unfoldable pub recvmsgs : Monitor → Radio p → Monitor × Radio p
  recvmsgs m r =
      let (replies, w) = l.nl_recvmsgs r.net.world in handle_replies replies m (with_world w r)

  unfoldable pub recvmsgs_loop : ℕ → Monitor → Radio p → Option (Monitor × Radio p)
  recvmsgs_loop zero m r = none
  recvmsgs_loop (suc fuel) m r =
      let (m', r') = recvmsgs m r in
      let rest = recvmsgs_loop fuel m' r' in if m.err == 0 then some (m, r) else rest

  -- The result, -12 for -ENOMEM.
  unfoldable pub get_winterface_infos : ℕ → ℤ → Monitor → Radio p → Option (ℤ × Monitor × Radio p)
  get_winterface_infos fuel ifindex m r =
      let m₁ : Monitor = record m { err = 1 } in
      let (allocated, w₁) = l.nlmsg_alloc r.net.world in
      let (ok, w₂) = l.get_interface ifindex w₁ in
      let answered : Option (Monitor × Radio p) =
        if ==_ℤ ifindex (pos 0)
        then recvmsgs_loop fuel m₁ (with_world w₂ r)
        else some (recvmsgs m₁ (with_world w₂ r)) in
      if not allocated
      then some (negsuc 11, m₁, with_world w₁ r)
      else if not ok
      then some (negsuc 0, m₁, with_world w₂ r)
      else answered >>= λ (m₂, r₂). some (pos 0, m₂, r₂)

  unfoldable pub new_net_interface : ℕ → List ℕ → Monitor → Radio p → Option (Monitor × Radio p)
  new_net_interface fuel h m r = elim (device_of_link l h r) [
    | none ↦ some (m, r)
    | some d ↦
        let asked = get_winterface_infos fuel d.index m r >>= λ (ret, m', r'). some (m', r') in
        if checkif_wireless_device d then asked else some (m, r)
  ]

  unfoldable pub del_net_interface : List ℕ → Radio p → Radio p
  del_net_interface h r = elim (tb ifla_address (l.link_attributes h)) [
    | none ↦ r
    | some bytes ↦ elim (device_of_link l h r) [
      | none ↦ r
      | some d ↦ if checkif_wireless_device d then handle_del_winet_notification d r else r
    ]
  ]

  -- The loop of recv_inet_event over the messages; the types that are not named change nothing.
  unfoldable pub handle_events :
      ℕ → List (ℕ × List ℕ) → Monitor → Radio p → Option (Monitor × Radio p)
  handle_events fuel [] m r = some (m, r)
  handle_events fuel ((type', h) ∷ rest) m r =
      let handled : Option (Monitor × Radio p) =
        if type' == rtm_newlink
        then new_net_interface fuel h m r
        else if type' == rtm_dellink
        then some (m, del_net_interface h r)
        else some (m, r) in
      handled >>= λ (m', r'). handle_events fuel rest m' r'

  unfoldable pub recv_inet_event : ℕ → Monitor → Radio p → Option (Monitor × Radio p)
  recv_inet_event fuel m r =
      let (reading, w) = l.recvmsg r.net.world in
      reading >>= λ messages. handle_events fuel messages m (with_world w r)

  -- The loop of main_loop, and main_loop, which clears `_outsideloop` for as long.
  unfoldable pub event_loop : ℕ → Monitor → Radio p → Option (Monitor × Radio p)
  event_loop zero m r = none
  event_loop (suc fuel) m r =
      let (retval, w) = l.select r.net.world in
      let r' = with_world w r in
      let handled : Option (Monitor × Radio p) =
        if ==_ℤ retval (negsuc 0)
        then some (stop m, r')
        else if ==_ℤ retval (pos 0)
        then some (m, r')
        else recv_inet_event fuel m r' in
      let rest = handled >>= λ (m', r''). event_loop fuel m' r'' in
      if m.started && not (l.stopped r.net.world) then rest else some (m, r)

  unfoldable pub main_loop : ℕ → Monitor → Radio p → Option (Monitor × Radio p)
  main_loop fuel m r = event_loop fuel (record m { outside_loop = false }) r >>= λ (m', r').
      some (record m' { outside_loop = true }, r')
