-- ===== src/Threads.antt =====
-- cthread.cc and ckernelwifi.cc, start from its beginning and stop: the five threads of CKernelWifi,
-- their start and their end, as a relation between states, one step for each access to what the
-- threads share. A handler that blocks is one that takes no step.
pub mod Stopping
use vwifi.Prelude.{ℕ, zero, suc, ◌≡◌, Bool, true, false, some, List, [], ◌∷◌, get_elem?}
use vwifi.Prelude.Int.{ℤ, pos, ◌-ℤ◌, ◌+ℤ◌}
use vwifi.Prelude.Ordered.{==_ℤ}

-- Where a thread is: not started, at the interruption_point of its loop, in the handler behind it, or
-- out of its loop.
pub data Place : Type 0 where
  unstarted at_point handling ended : Place

-- An InterruptibleThread.
pub record Task : Type 0 where
  pub interrupt_flag : Bool
  pub place : Place

-- Which thread is which, in the order of their members in CKernelWifi.
abbrev pub hwsimloop_task : ℕ
hwsimloop_task = 0

abbrev pub serverloop_task : ℕ
serverloop_task = 1

abbrev pub monitorloop_task : ℕ
monitorloop_task = 2

abbrev pub winterface_update_loop_task : ℕ
winterface_update_loop_task = 3

abbrev pub connection_to_server_loop_task : ℕ
connection_to_server_loop_task = 4

-- How far `start` has come: in init_first, behind it, in its loop of _Connect, behind that, at the
-- joins, or out of it.
pub data Stage : Type 0 where
  initializing monitoring connecting starting joining over : Stage

-- What `stop` does behind its early returns, before it waits.
pub data Action : Type 0 where
  interrupts : ℕ → Action
  kills_server : Action

pub record Threads : Type 0 where
  pub tasks : List Task
  pub number_thread : ℤ
  pub being_initialized : Bool
  pub being_started : Bool
  pub stage : Stage
  -- The threads that `start` has still to start.
  pub to_start : List ℕ
  -- Whether `stop` is behind its early returns, what it has still to do, and whether it has returned
  -- from its wait.
  pub stopping : Bool
  pub pending : List Action
  pub stopped : Bool

unfoldable pub count_thread : Threads → Threads
count_thread t = record t { number_thread = t.number_thread +ℤ pos 1 }

unfoldable pub uncount_thread : Threads → Threads
uncount_thread t = record t { number_thread = t.number_thread -ℤ pos 1 }

unfoldable pub all_thread_interrupted : Threads → Bool
all_thread_interrupted t = ==_ℤ t.number_thread (pos 0)

-- InterruptibleThread::interrupt sets the flag of a thread that has one.
abbrev pub set_flag : Task → Task
set_flag t = elim t.place [
  | unstarted ↦ t
  | at_point ↦ record t { interrupt_flag = true }
  | handling ↦ record t { interrupt_flag = true }
  | ended ↦ record t { interrupt_flag = true }
]

-- The signal that pthread_kill sends ends the call that a handler blocks in; at another place it
-- changes nothing.
abbrev pub woken : Task → Task
woken t = elim t.place [
  | unstarted ↦ t
  | at_point ↦ t
  | handling ↦ record t { place = at_point }
  | ended ↦ t
]

abbrev pub moved : Place → Task → Task
moved place t = record t { place = place }

unfoldable pub change_task : (Task → Task) → ℕ → List Task → List Task
change_task f i [] = []
change_task f zero (t ∷ ts) = f t ∷ ts
change_task f (suc i) (t ∷ ts) = t ∷ change_task f i ts

unfoldable pub interrupt : ℕ → List Task → List Task
interrupt = change_task set_flag

-- The order in which `start` starts the threads, and what `stop` does in its order.
abbrev pub start_order : List ℕ
start_order =
    hwsimloop_task ∷ serverloop_task ∷ monitorloop_task ∷ winterface_update_loop_task
    ∷ connection_to_server_loop_task ∷ []

abbrev pub stop_order : List Action
stop_order =
    interrupts connection_to_server_loop_task
    ∷ kills_server
    ∷ interrupts serverloop_task
    ∷ interrupts hwsimloop_task
    ∷ interrupts monitorloop_task
    ∷ interrupts winterface_update_loop_task
    ∷ []

abbrev pub constructed : Task
constructed = record { interrupt_flag = false; place = unstarted }

-- The constructors have counted each thread, and `start` has set _being_initialized.
unfoldable pub start_all : Threads
start_all = record {
  tasks = constructed ∷ constructed ∷ constructed ∷ constructed ∷ constructed ∷ [];
  number_thread = pos 5;
  being_initialized = true;
  being_started = false;
  stage = initializing;
  to_start = start_order;
  stopping = false;
  pending = [];
  stopped = false;
}

abbrev pub At : ℕ → Bool → Place → Threads → Type 0
At i flag place t = get_elem? t.tasks i ≡ some (record { interrupt_flag = flag; place = place })

pub data Step : Threads → Threads → Type 0 where
  -- `start`: init_first succeeds or fails.
  initializes :
      (t : Threads)
      → t.stage ≡ initializing
      → Step t (record t { being_initialized = false; stage = monitoring })
  cannot_initialize : (t : Threads) → t.stage ≡ initializing → Step t (record t { stage = over })
  -- An exception at the making of the monitor.
  cannot_monitor : (t : Threads) → t.stage ≡ monitoring → Step t (record t { stage = over })
  -- being_started(true).
  tries :
      (t : Threads)
      → t.stage ≡ monitoring
      → Step t (record t { being_started = true; stage = connecting })
  -- _Connect succeeds, or fails and finds being_started false, or goes on.
  connects : (t : Threads) → t.stage ≡ connecting → Step t (record t { stage = starting })
  gives_up :
      (t : Threads)
      → t.stage ≡ connecting
      → t.being_started ≡ false
      → Step t (record t { stage = over })
  -- The next thread is started.
  starts :
      (i : ℕ) (rest : List ℕ) (t : Threads)
      → t.stage ≡ starting
      → t.to_start ≡ i ∷ rest
      → At i false unstarted t
      → Step t (record t { tasks = change_task (moved at_point) i t.tasks; to_start = rest })
  -- being_started(false), and the joins.
  has_started :
      (t : Threads)
      → t.stage ≡ starting
      → t.to_start ≡ []
      → Step t (record t { being_started = false; stage = joining })
  -- `stop`: its early returns, behind which it may be called again.
  stops_initializing :
      (t : Threads)
      → t.stopping ≡ false
      → t.being_initialized ≡ true
      → Step t (record t { being_initialized = false })
  stops_starting :
      (t : Threads)
      → t.stopping ≡ false
      → t.being_initialized ≡ false
      → t.being_started ≡ true
      → Step t (record t { being_started = false })
  -- `stop` finds both flags down.
  begins_stop :
      (t : Threads)
      → t.stopping ≡ false
      → t.being_initialized ≡ false
      → t.being_started ≡ false
      → Step t (record t { stopping = true; pending = stop_order })
  interrupts_next :
      (i : ℕ) (rest : List Action) (t : Threads)
      → t.pending ≡ interrupts i ∷ rest
      → Step t (record t { tasks = interrupt i t.tasks; pending = rest })
  kills :
      (rest : List Action) (t : Threads)
      → t.pending ≡ kills_server ∷ rest
      → Step t (record t { tasks = change_task woken serverloop_task t.tasks; pending = rest })
  -- `stop` has waited until no thread is counted.
  returns :
      (t : Threads)
      → t.stopping ≡ true
      → t.pending ≡ []
      → all_thread_interrupted t ≡ true
      → Step t (record t { stopped = true })
  -- A thread that is not interrupted goes on to its handler, which may return.
  goes_on :
      (i : ℕ) (t : Threads)
      → At i false at_point t
      → Step t (record t { tasks = change_task (moved handling) i t.tasks })
  comes_back :
      (i : ℕ) (flag : Bool) (t : Threads)
      → At i flag handling t
      → Step t (record t { tasks = change_task (moved at_point) i t.tasks })
  -- A thread that is interrupted calls `dead` and leaves its loop.
  dies :
      (i : ℕ) (t : Threads)
      → At i true at_point t
      → Step t (uncount_thread (record t { tasks = change_task (moved ended) i t.tasks }))
  -- `init` fails in a round of monitor_hwsim_loop, which is left without `dead`.
  breaks :
      (flag : Bool) (t : Threads)
      → At monitorloop_task flag handling t
      → Step t (record t { tasks = change_task (moved ended) monitorloop_task t.tasks })

pub data Reach (s : Threads) : Threads → Type 0 where
  here : Reach s s
  next : {t u : Threads} → Reach s t → Step t u → Reach s u
