-- ===== src/Examples/Machine.antt =====
-- What surrounds the radios of a machine, at work: the monitor of its interfaces, the threads, the
-- radios that are created and the command line.
use vwifi.Prelude.{
  ℕ, suc, ◌-◌, ◌≡◌, refl, inl, true, false, some, none, List, [], ◌∷◌, ◌++◌, arith, ◌==◌,
  if◌then◌else◌,
}
use vwifi.Prelude.Int.{pos}
use vwifi.Kernel.{LinkKernel, valid, finish}
use vwifi.Radio.{Radio}
use vwifi.Monitor.{Monitor, new_monitor, recv_inet_event}
use vwifi.Monitor.Steady.{EndsDumps, Steady, recv_inet_event-Ends}
use vwifi.Interfaces.{RadioKernel, Created, create_radios}
use vwifi.Interfaces.Addresses.{Creates, prefix, create_radios-Creates}
use vwifi.CommandLine.{parse_client, default_client}
use vwifi.CommandLine.Ports.{Starts, parse_client-Starts}
use vwifi.Radio.Reconnected.{IsLinked}
use vwifi.Start.{start}
use vwifi.Start.Linked.{Monitors, start-Links}
use vwifi.Examples.Radios.{on_air, kernel, radio, lost, kernel-Recovers, kernel-Opens}

abbrev wlan : List ℕ
wlan = 119 ∷ 108 ∷ 97 ∷ 110 ∷ []

abbrev pub links : LinkKernel on_air
links = record {
  socket = λ w. (true, w);
  bind = λ w. (true, w);
  select = λ w. (pos 1, w);
  recvmsg = λ w. (some ((16, 1 ∷ []) ∷ (17, 2 ∷ []) ∷ []), w);
  link_info = λ h. (pos 4, 1);
  link_attributes = λ h. (3, wlan) ∷ (1, 4 ∷ 0 ∷ 0 ∷ 0 ∷ 0 ∷ 0 ∷ []) ∷ [];
  nl_socket_alloc = λ w. (true, w);
  genl_connect = λ w. (true, w);
  resolve_nl80211 = λ w. (pos 27, w);
  nl_cb_alloc = λ w. (true, w);
  release = λ w. w;
  nlmsg_alloc = λ w. (true, w);
  get_interface = λ i w. (true, w);
  nl_recvmsgs = λ w. (
    valid (record {
      ifname = some wlan;
      ifindex = some 4;
      mac = some (4 ∷ 0 ∷ 0 ∷ 0 ∷ 0 ∷ 0 ∷ []);
      iftype = some 2;
      tx_power_level = none;
    })
        ∷ finish
        ∷ [],
    w,
  );
  stopped = λ w. false;
}

pub links-EndsDumps : EndsDumps kernel links (λ w. 0)
links-EndsDumps = record {
  malloc = λ w. omega arith;
  socket = λ w. omega arith;
  address = λ d name w. omega arith;
  close = λ d w. omega arith;
  alloc = λ w. omega arith;
  request = λ i w. omega arith;
  events = λ w. omega arith;
  replies = λ w. omega arith;
  ends = λ w. inl tt;
}

recv_inet_event-Ends_example :
    (m' : Monitor) × (r' : Radio on_air) × (recv_inet_event kernel links 2 new_monitor radio
      ≡ some (m', r'))
    × Steady (λ w. 0) radio r'
recv_inet_event-Ends_example =
    recv_inet_event-Ends (λ w. 0) kernel links links-EndsDumps 2 ((16, 1 ∷ []) ∷ (17, 2 ∷ []) ∷ [])
      new_monitor radio (omega arith) refl

-- A driver that takes two radios.
abbrev two_radios : RadioKernel
two_radios = record {
  World = ℕ;
  nl_socket_alloc = λ w. (true, w);
  genl_connect = λ w. (true, w);
  genl_ctrl_resolve = λ w. (pos 26, w);
  build = λ family mac w. (true, w);
  nl_send_auto = λ family mac w. (if w == 2 then false else true, suc w);
  nl_socket_free = λ w. w;
}

abbrev none_yet : Created two_radios
none_yet = record { world = 0; addresses = [] }

create_radios-Creates_example :
    Creates
      (prefix 116 248 246 7 0)
      0
      3
      none_yet
      (create_radios (pos 26) 3 (prefix 116 248 246 7 0 ++ 0 ∷ []) none_yet)
create_radios-Creates_example =
    create_radios-Creates 116 248 246 7 0 0 (pos 26) 3 none_yet (omega arith) (omega arith)

-- `-n 2 10.0.0.1`
abbrev line : List (List ℕ)
line = (45 ∷ 110 ∷ []) ∷ (50 ∷ []) ∷ (49 ∷ 48 ∷ 46 ∷ 48 ∷ 46 ∷ 48 ∷ 46 ∷ 49 ∷ []) ∷ []

parse_client-Starts_example :
    Starts (parse_client (λ word mac. (pos 6, mac)) false line (default_client 7))
parse_client-Starts_example = parse_client-Starts (λ word mac. (pos 6, mac)) line 7

pub links-Monitors : Monitors links
links-Monitors = record {
  socket = λ w. refl;
  bind = λ w. refl;
  alloc = λ w. refl;
  connect = λ w. refl;
  family = λ w. (27, refl);
  cb = λ w. refl;
}

start-Links_example :
    (m : Monitor) × (r' : Radio on_air) × (start kernel links false 6
        (record lost { initialized = false })
      ≡ some (true, m, r'))
    × IsLinked r'
    × (r'.initialized ≡ true)
    × (r'.being_started ≡ false)
start-Links_example =
    start-Links kernel links false (λ w. 0) (λ w. 5 - w) links-EndsDumps kernel-Recovers 2 6
      (record lost { initialized = false }) 0 (λ family m w. refl, λ family m w. refl)
      links-Monitors (λ w. refl) (λ w. omega arith) (λ w. omega arith) (omega arith) refl
      (kernel-Opens 0) (refl, refl, (refl, refl, (26, refl)))
