-- ===== src/Start/Linked.antt =====
-- That CKernelWifi::start of ckernelwifi.cc ends connected to a server that comes back.
use vwifi.Prelude.{ℕ, zero, suc, ◌<◌, ◌≡◌, refl, ap, ◌∙◌, inl, inr, Bool, true, false, some, arith}
use vwifi.Prelude.Int.{ℤ, pos}
use vwifi.Platform.{Platform}
use vwifi.Kernel.{Kernel, LinkKernel, Message}
use vwifi.Radio.{Radio, with_world}
use vwifi.Radio.Netlink.{init_first}
use vwifi.Radio.Requests.{Builds}
use vwifi.Radio.Loaded.{Opens, Appears, registers, init_netlink_first-Loads}
use vwifi.Radio.Connecting.{connect_radio, is_being_started, connect_first}
use vwifi.Radio.Reconnected.{Recovers, IsLinked, connect_radio-Tries}
use vwifi.Monitor.{Monitor, new_monitor, get_winterface_infos}
use vwifi.Monitor
use vwifi.Monitor.Steady.{EndsDumps, infos_lem}
use vwifi.Start.{nl80211_init, monitor_wireless_device, be_initialized, start_monitored, start}

-- The sockets of the monitor can be had.
pub record Monitors {p : Platform} (l : LinkKernel p) : Type 0 where
  pub socket : (w : p.World) → (l.socket w).0 ≡ true
  pub bind : (w : p.World) → (l.bind w).0 ≡ true
  pub alloc : (w : p.World) → (l.nl_socket_alloc w).0 ≡ true
  pub connect : (w : p.World) → (l.genl_connect w).0 ≡ true
  pub family : (w : p.World) → (f : ℕ) × ((l.resolve_nl80211 w).0 ≡ pos f)
  pub cb : (w : p.World) → (l.nl_cb_alloc w).0 ≡ true

-- The driver's messages can be built and sent.
abbrev pub Sends : (p : Platform) → Kernel p → Type 0
Sends p k =
    Builds p k × ((family : ℤ) (m : Message) (w : p.World) → (k.nl_send_auto family m w).0 ≡ true)

module _ {p : Platform} (k : Kernel p) (l : LinkKernel p) (b : Bool) where
  nl80211_init-Opens :
      (r : Radio p)
      → Monitors l
      → (f : ℕ) × (w : p.World) × (nl80211_init l r ≡ (pos f, with_world w r))
  unfolding nl80211_init
  nl80211_init-Opens r o =
      let w₁ = (l.nl_socket_alloc r.net.world).1 in
      let w₂ = (l.genl_connect w₁).1 in
      let (f, e) = o.family w₂ in
      let w₃ = (l.resolve_nl80211 w₂).1 in
      let w₄ = (l.nl_cb_alloc w₃).1 in
      (
        f,
        (l.nl_cb_alloc w₄).1,
        ground (arith, o.alloc r.net.world, o.connect w₁, e, o.cb w₃, o.cb w₄),
      )

  monitor-Opens :
      (r : Radio p)
      → Monitors l
      → (w : p.World) × (monitor_wireless_device l r ≡ (true, with_world w r))
  unfolding monitor_wireless_device
  monitor-Opens r o =
      let w₁ = (l.socket r.net.world).1 in
      let w₂ = (l.bind w₁).1 in
      let (f, w, e) = nl80211_init-Opens (with_world w₂ r) o in
      (w, ground (arith, o.socket r.net.world, o.bind w₁, e))

  connect_first-Links :
      (rank : p.World → ℕ) (fuel : ℕ) (r : Radio p)
      → Recovers k rank
      → ((w : p.World) → k.start_stopped w ≡ false)
      → rank r.net.world < fuel
      → r.being_started ≡ true
      → (r' : Radio p) × (connect_first k b fuel r ≡ some (true, r'))
        × IsLinked r'
        × (r'.initialized ≡ r.initialized)
  unfolding connect_first is_being_started
  connect_first-Links rank zero r law on h s = elim h [ ]
  connect_first-Links rank (suc fuel) r law on h s =
      let (ok, r') = connect_radio k b r in
      let (d, i, s', c, t) = connect_radio-Tries k rank law b r in
      elim t [
        | inl (e, linked) ↦ (record r' { connected_to_server = true }, ground (arith, e), linked, i)
        | inr (e, near) ↦
            let w = k.sleep 2 r'.net.world in
            let (r₂, e₂, linked, i₂) =
              connect_first-Links rank fuel (with_world w r') law on
                (omega (arith, h, near, law.sleep_rank 2 r'.net.world)) (s' ∙ s) in
            (r₂, ground (arith, e, s' ∙ s, on r'.net.world, e₂), linked, i₂ ∙ i)
      ]

  init_first-Loads :
      (n fuel : ℕ) (r : Radio p) (w : p.World)
      → Sends p k
      → n < fuel
      → r.being_initialized ≡ true
      → Opens k r.net.world w
      → Appears p k n w
      → (r' : Radio p) × (init_first k fuel r ≡ some (true, r')) × (r'.initialized ≡ true)
  unfolding init_first
  init_first-Loads n fuel r w (builds, sends) h on o a =
      let (r₁, e₁, f) = init_netlink_first-Loads k n fuel r w h on o a in
      let (r₂, e₂, i, g, q) = registers k r₁ builds sends in (r₂, rw e₁ (ap some e₂), i)

  be_initialized-Loads :
      (n fuel : ℕ) (r : Radio p) (w : p.World)
      → Sends p k
      → n < fuel
      → r.initialized ≡ false
      → Opens k r.net.world w
      → Appears p k n w
      → (r' : Radio p) × (be_initialized k fuel r ≡ some (true, r')) × (r'.initialized ≡ true)
  unfolding be_initialized
  be_initialized-Loads n fuel r w sends h off o a =
      let (r', e, i) =
        init_first-Loads n fuel (record r { being_initialized = true }) w sends h refl o a in
      (r', ground (arith, off, e), i)

  module _ (rank₁ rank₂ : p.World → ℕ) (dumps : EndsDumps k l rank₁) (law : Recovers k rank₂) where
    start_monitored-Links :
        (fuel : ℕ) (r : Radio p)
        → Monitors l
        → ((w : p.World) → k.start_stopped w ≡ false)
        → ((w : p.World) → suc (rank₁ w) < fuel)
        → ((w : p.World) → rank₂ w < fuel)
        → (m : Monitor) × (r' : Radio p) × (start_monitored k l b fuel r ≡ some (true, m, r'))
          × IsLinked r'
          × (r'.initialized ≡ r.initialized)
          × (r'.being_started ≡ false)
    unfolding start_monitored
    start_monitored-Links fuel r o on h₁ h₂ =
        let (w, e) = monitor-Opens r o in
        let m₀ = (Monitor.start new_monitor).1 in
        let r₁ = with_world w r in
        let (ret, m, r₂, e₂, s) = infos_lem rank₁ k l dumps fuel (pos 0) m₀ r₁ (h₁ w) in
        let (r₃, e₃, linked, i) =
          connect_first-Links rank₂ fuel (record r₂ { being_started = true }) law on
            (h₂ r₂.net.world) refl in
        (m, record r₃ { being_started = false }, rw (e, e₂, e₃), linked, i ∙ s.initialized, refl)

    -- Where the netlink sockets can be had, the messages to the driver are built and sent, the
    -- driver is found at the first of n further tries, a rank of the network below the fuel, by
    -- more than one, bounds how many readings of a dump are without its end, another one below the
    -- fuel bounds how often the connection to the server still fails, n is below the fuel, no stop
    -- is asked for and the client is not initialized, start comes to its threads: it gives
    -- success, the client is initialized, its flag says that it is connected, the scheduler
    -- watches the descriptor of the connection, and it is no longer being started.
    pub start-Links :
        (n fuel : ℕ) (r : Radio p) (w : p.World)
        → Sends p k
        → Monitors l
        → ((w : p.World) → k.start_stopped w ≡ false)
        → ((w : p.World) → suc (rank₁ w) < fuel)
        → ((w : p.World) → rank₂ w < fuel)
        → n < fuel
        → r.initialized ≡ false
        → Opens k r.net.world w
        → Appears p k n w
        → (m : Monitor) × (r' : Radio p) × (start k l b fuel r ≡ some (true, m, r'))
          × IsLinked r'
          × (r'.initialized ≡ true)
          × (r'.being_started ≡ false)
    unfolding start
    start-Links n fuel r w sends o on h₁ h₂ h off opens a =
        let (r₁, e₁, i₁) = be_initialized-Loads n fuel r w sends h off opens a in
        let (m, r₂, e₂, linked, i₂, s) =
          start_monitored-Links fuel (record r₁ { being_initialized = false }) o on h₁ h₂ in
        (m, r₂, rw (e₁, e₂), linked, i₂ ∙ i₁, s)
