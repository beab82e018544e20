-- ===== src/Examples/Rounds.antt =====
-- The threads of a client at work on the machine of Examples.Radios, with its links.
use vwifi.Prelude.{◌-◌, ◌≡◌, refl, Option, none, some, Bool, true, false, [], ◌∷◌, arith}
use vwifi.Radio.{Radio}
use vwifi.Radio.Reconnected.{IsLinked}
use vwifi.Radio.Netlink.{monitor_hwsim_round}
use vwifi.Radio.Connecting.{manage_server_crash_round}
use vwifi.Monitor.{Monitor, new_monitor}
use vwifi.Start.{start}
use vwifi.Start.Linked.{start-Links}
use vwifi.Rounds.{
  DriverSocket, recv_msg_from_hwsim_round, recv_msg_from_server_round, winet_update_round, Turn,
  from_hwsim, from_server, updates, watches_driver, watches_server,
}
use vwifi.Rounds.Sound.{IsSound, Rounds, no_round, one_more}
use vwifi.Rounds.Started.{Rounds-after_start}
use vwifi.Examples.Radios.{
  kernel, lost, on_air, message, devices-IsValid, kernel-Recovers, kernel-Opens,
}
use vwifi.Examples.Machine.{links, links-EndsDumps, links-Monitors}

abbrev driver : DriverSocket on_air
driver w = (message ∷ [], w)

abbrev unloaded : Radio on_air
unloaded = record lost { initialized = false }

-- The client once `start` has come to its threads.
started :
    (m : Monitor) × (r : Radio on_air) × (start kernel links false 6 unloaded ≡ some (true, m, r))
    × IsLinked r
    × (r.initialized ≡ true)
    × (r.being_started ≡ false)
started =
    start-Links kernel links false (λ w. 0) (λ w. 5 - w) links-EndsDumps kernel-Recovers 2 6
      unloaded 0 (λ family m w. refl, λ family m w. refl) links-Monitors (λ w. refl)
      (λ w. omega arith) (λ w. omega arith) (omega arith) refl (kernel-Opens 0)
      (refl, refl, (refl, refl, (26, refl)))

-- The client after a round, if it comes to an end.
abbrev after : Radio on_air → Option (Bool × Radio on_air) → Radio on_air
after r none = r
after r (some (on, r')) = r'

abbrev first : Radio on_air
first = after started.1 (recv_msg_from_hwsim_round kernel driver started.1)

abbrev second : Radio on_air
second = after first (recv_msg_from_server_round kernel first)

-- The round of the updates, without the monitor that it leaves.
abbrev update : Option (Bool × Monitor × Radio on_air) → Radio on_air
update none = second
update (some (on, m, r)) = r

abbrev third : Radio on_air
third = update (winet_update_round kernel links 6 new_monitor second)

abbrev fourth : Radio on_air
fourth = after third (monitor_hwsim_round kernel 6 third)

abbrev fifth : Radio on_air
fifth = (manage_server_crash_round kernel false fourth).1

advance :
    (r₀ r : Radio on_air) (o : Option (Bool × Radio on_air))
    → ((on : Bool) (r' : Radio on_air) → o ≡ some (on, r') → Turn kernel links driver false 6 r r')
    → Rounds kernel links driver false 6 r₀ r
    → Rounds kernel links driver false 6 r₀ (after r o)
advance r₀ r none turn before = before
advance r₀ r (some (on, r')) turn before = one_more before (turn on r' refl)

updated :
    (o : Option (Bool × Monitor × Radio on_air))
    → ((on : Bool) (m : Monitor) (r' : Radio on_air)
        → o ≡ some (on, m, r')
        → Turn kernel links driver false 6 second r')
    → Rounds kernel links driver false 6 started.1 second
    → Rounds kernel links driver false 6 started.1 (update o)
updated none turn before = before
updated (some (on, m, r')) turn before = one_more before (turn on m r' refl)

turns : Rounds kernel links driver false 6 started.1 fifth
turns =
    let one =
      advance _ _ (recv_msg_from_hwsim_round kernel driver started.1) (λ on r'. from_hwsim on)
        no_round in
    let two = advance _ _ (recv_msg_from_server_round kernel first) (λ on r'. from_server on) one in
    let three =
      updated (winet_update_round kernel links 6 new_monitor second)
        (λ on m r'. updates on new_monitor m) two in
    let four =
      advance _ _ (monitor_hwsim_round kernel 6 third) (λ on r'. watches_driver on) three in
    one_more four (watches_server (manage_server_crash_round kernel false fourth).0 refl)

Rounds-after_start_example : IsSound fifth
Rounds-after_start_example =
    Rounds-after_start kernel links (λ w. 0) links-EndsDumps 6 (λ w. omega arith) false driver
      started.0 unloaded started.1 fifth (devices-IsValid, refl) started.2 turns
