-- ===== src/Rounds.antt =====
-- ckernelwifi.cc: a round of each thread's loop, stop up to the threads, and the end of the object.
-- monitor_hwsim_round stands in Radio.Netlink, manage_server_crash_round in Radio.Connecting.
pub mod Kept
pub mod Loaded
pub mod Sound
pub mod Started
use vwifi.Prelude.{
  ℕ, ◌≡◌, Bool, true, false, not, Option, some, ◌>>=◌, List, [], ◌∷◌, if◌then◌else◌,
}
use vwifi.Prelude.Int.{pos}
use vwifi.Platform.{Platform}
use vwifi.Client.{close}
use vwifi.Kernel.{Kernel, LinkKernel}
use vwifi.Radio.{Radio, with_world}
use vwifi.Radio.Netlink.{dead, monitor_hwsim_round}
use vwifi.Radio.Forwarding.{process_messages, recv_from_server}
use vwifi.Radio.Connecting.{manage_server_crash_round}
use vwifi.Monitor.{Monitor, get_winterface_infos, recv_inet_event}

-- `nl_recvmsgs_default` on the netlink socket of the driver: the messages that it hands to the
-- callback, one after another.
abbrev pub DriverSocket : Platform → Type 0
DriverSocket p = p.World → List (List ℕ) × p.World

module _ {p : Platform} (k : Kernel p) where
  -- `process_messages_cb` does not look at the result.
  unfoldable pub process_all : List (List ℕ) → Radio p → Option (Radio p)
  process_all [] r = some r
  process_all (msg ∷ msgs) r = process_messages k msg r >>= λ (ret, r'). process_all msgs r'

  -- What the two loops that read messages share: whether the loop goes on, after its work if the driver is loaded.
  unfoldable pub round_of : (Radio p → Option (Radio p)) → Radio p → Option (Bool × Radio p)
  round_of work r =
      let worked = work r >>= λ r'. some (true, r') in
      if k.interrupted r.net.world
      then some (false, dead r)
      else if not r.initialized
      then some (true, with_world (k.sleep 1 r.net.world) r)
      else worked

  unfoldable pub recv_msg_from_hwsim_round : DriverSocket p → Radio p → Option (Bool × Radio p)
  recv_msg_from_hwsim_round socket =
      round_of λ r. let (msgs, w) = socket r.net.world in process_all msgs (with_world w r)

  unfoldable pub recv_msg_from_server_round : Radio p → Option (Bool × Radio p)
  recv_msg_from_server_round = round_of (recv_from_server k)

  unfoldable pub winet_update_round :
      LinkKernel p → ℕ → Monitor → Radio p → Option (Bool × Monitor × Radio p)
  winet_update_round l fuel m r =
      let updated = get_winterface_infos k l fuel (pos 0) m r >>= λ (ret, m', r').
      some (true, m', with_world (k.sleep 1 r'.net.world) r') in
      if k.interrupted r.net.world
      then some (false, m, dead r)
      else if not r.initialized
      then some (true, m, with_world (k.sleep 1 r.net.world) r)
      else updated

  -- Whether `stop` goes on to interrupt the threads.
  unfoldable pub stop_before_threads : Radio p → Bool × Radio p
  stop_before_threads r =
      let (client, n) = close r.client r.net in
      if r.being_initialized
      then (false, record r { being_initialized = false })
      else if r.being_started
      then (false, record r { being_started = false })
      else if r.connected_to_server
      then (true, record r { client = client; net = n })
      else (true, r)

  -- The destructor.
  unfoldable pub clean_all : Radio p → Radio p
  clean_all r = with_world (k.release r.net.world) r

-- A round of any of the threads, in any order and with any state of the monitor.
pub data Turn {p : Platform} (k : Kernel p) (l : LinkKernel p) (socket : DriverSocket p)
    (hash_uses_port : Bool) (fuel : ℕ) : Radio p → Radio p → Type 0 where
  from_hwsim :
      (b : Bool) {r r' : Radio p}
      → recv_msg_from_hwsim_round k socket r ≡ some (b, r')
      → Turn k l socket hash_uses_port fuel r r'
  from_server :
      (b : Bool) {r r' : Radio p}
      → recv_msg_from_server_round k r ≡ some (b, r')
      → Turn k l socket hash_uses_port fuel r r'
  updates :
      (b : Bool) (m m' : Monitor) {r r' : Radio p}
      → winet_update_round k l fuel m r ≡ some (b, m', r')
      → Turn k l socket hash_uses_port fuel r r'
  watches_links :
      (m m' : Monitor) {r r' : Radio p}
      → recv_inet_event k l fuel m r ≡ some (m', r')
      → Turn k l socket hash_uses_port fuel r r'
  watches_driver :
      (b : Bool) {r r' : Radio p}
      → monitor_hwsim_round k fuel r ≡ some (b, r')
      → Turn k l socket hash_uses_port fuel r r'
  watches_server :
      (b : Bool) {r r' : Radio p}
      → manage_server_crash_round k hash_uses_port r ≡ (b, r')
      → Turn k l socket hash_uses_port fuel r r'
