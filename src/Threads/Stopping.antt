-- ===== src/Threads/Stopping.antt =====
-- When CKernelWifi::stop of ckernelwifi.cc returns from its wait.
use mathlib.Core.Option.{some-injective}
use vwifi.Prelude.{
  ℕ, zero, suc, ◌+◌, ◌<◌, ◌≡◌, refl, ap, Bool, true, false, some, List, [], ◌∷◌, arith, get_elem?,
  All,
}
use vwifi.Prelude.Int.{pos, -ℤ_parts, pos_part, neg_part}
use vwifi.Threads.{
  Task, Place, Threads, unstarted, at_point, handling, ended, uncount_thread,
  all_thread_interrupted, set_flag, woken, moved, change_task, interrupt, serverloop_task,
  start_all, At, Step, initializes, cannot_initialize, cannot_monitor, tries, connects, gives_up,
  starts, has_started, stops_initializing, stops_starting, begins_stop, interrupts_next, kills,
  returns, goes_on, comes_back, dies, breaks, Reach, here, next, monitorloop_task,
}

-- How many threads are not out of their loops.
abbrev pub weight : Place → ℕ
weight unstarted = 1
weight at_point = 1
weight handling = 1
weight ended = 0

abbrev pub alive : List Task → ℕ
alive [] = 0
alive (t ∷ ts) = weight t.place + alive ts

alive-change_task :
    (f : Task → Task) (i : ℕ) (ts : List Task)
    → ((t : Task) → weight (f t).place ≡ weight t.place)
    → alive (change_task f i ts) ≡ alive ts
unfolding change_task
alive-change_task f i [] keep = refl
alive-change_task f zero (t ∷ ts) keep = omega (arith, keep t)
alive-change_task f (suc i) (t ∷ ts) keep = omega (arith, alive-change_task f i ts keep)

set_flag_lem : (t : Task) → weight (set_flag t).place ≡ weight t.place
set_flag_lem t =
    elim t.place as (λ x. weight (set_flag (record t { place = x })).place ≡ weight x) [
      | unstarted ↦ refl
      | at_point ↦ refl
      | handling ↦ refl
      | ended ↦ refl
    ]

woken_lem : (t : Task) → weight (woken t).place ≡ weight t.place
woken_lem t = elim t.place as (λ x. weight (woken (record t { place = x })).place ≡ weight x) [
  | unstarted ↦ refl
  | at_point ↦ refl
  | handling ↦ refl
  | ended ↦ refl
]

-- A thread that goes from one place to another.
alive-moved :
    (to from : Place) (flag : Bool) (i : ℕ) (ts : List Task)
    → get_elem? ts i ≡ some (record { interrupt_flag = flag; place = from })
    → alive (change_task (moved to) i ts) + weight from ≡ alive ts + weight to
unfolding change_task
alive-moved to from flag i [] e = cc
alive-moved to from flag zero (t ∷ ts) e =
    let w : weight t.place ≡ weight from =
      ap (λ (x : Task). weight x.place) (some-injective t _ e) in
    omega (arith, w)
alive-moved to from flag (suc i) (t ∷ ts) e = omega (arith, alive-moved to from flag i ts e)

-- The count is that of the threads that are not out of their loops, with `left` loops that were left
-- without `dead`.
pub record Counts (left : ℕ) (t : Threads) : Type 0 where
  pub counted : pos_part t.number_thread ≡ neg_part t.number_thread + alive t.tasks + left
  pub done : t.stopped ≡ true → alive t.tasks ≡ 0

-- Other changes of the tasks leave the count.
same :
    (left : ℕ) (t : Threads) (ts : List Task)
    → Counts left t
    → alive ts ≡ alive t.tasks
    → (more : ℕ) × Counts (left + more) (record t { tasks = ts })
same left t ts c e =
    (0, record { counted = omega (arith, c.counted, e); done = λ s. omega (arith, c.done s, e) })

-- Steps that change neither the tasks nor the count.
still :
    (left : ℕ) (t u : Threads)
    → Counts left t
    → u.tasks ≡ t.tasks
    → u.number_thread ≡ t.number_thread
    → u.stopped ≡ t.stopped
    → (more : ℕ) × Counts (left + more) u
still left t u c e n s = (
  0,
  record { counted = rw (e, n) (omega (arith, c.counted)); done = λ h. rw e (c.done (rw (← s) h)) },
)

pub Step-Counts :
    {t u : Threads} (left : ℕ) → Counts left t → Step t u → (more : ℕ) × Counts (left + more) u
unfolding uncount_thread all_thread_interrupted interrupt
Step-Counts left c (initializes t a) = still left t _ c refl refl refl
Step-Counts left c (cannot_initialize t a) = still left t _ c refl refl refl
Step-Counts left c (cannot_monitor t a) = still left t _ c refl refl refl
Step-Counts left c (tries t a) = still left t _ c refl refl refl
Step-Counts left c (connects t a) = still left t _ c refl refl refl
Step-Counts left c (gives_up t a b) = still left t _ c refl refl refl
Step-Counts left c (starts i rest t a b g) =
    let l = alive-moved at_point unstarted false i t.tasks g in
    let (m, d) = same left t _ c (omega (arith, l)) in
    (m, record { counted = d.counted; done = d.done })
Step-Counts left c (has_started t a b) = still left t _ c refl refl refl
Step-Counts left c (stops_initializing t a b) = still left t _ c refl refl refl
Step-Counts left c (stops_starting t a b d) = still left t _ c refl refl refl
Step-Counts left c (begins_stop t a b d) = still left t _ c refl refl refl
Step-Counts left c (interrupts_next i rest t e) =
    let (m, d) = same left t _ c (alive-change_task set_flag i t.tasks set_flag_lem) in
    (m, record { counted = d.counted; done = d.done })
Step-Counts left c (kills rest t e) =
    let (m, d) = same left t _ c (alive-change_task woken serverloop_task t.tasks woken_lem) in
    (m, record { counted = d.counted; done = d.done })
Step-Counts left c (returns t a e z) =
    (0, record { counted = omega (arith, c.counted); done = λ s. ground (arith, c.counted) })
Step-Counts left c (goes_on i t g) =
    same left t _ c (omega (arith, alive-moved handling at_point false i t.tasks g))
Step-Counts left c (comes_back i flag t g) =
    same left t _ c (omega (arith, alive-moved at_point handling flag i t.tasks g))
Step-Counts left c (dies i t g) =
    let l = alive-moved ended at_point true i t.tasks g in
    (
      0,
      record {
        counted = omega (arith, c.counted, l, -ℤ_parts t.number_thread (pos 1));
        done = λ s. omega (arith, c.done s, l);
      },
    )
Step-Counts left c (breaks flag t g) =
    let l = alive-moved ended handling flag monitorloop_task t.tasks g in
    (1, record { counted = omega (arith, c.counted, l); done = λ s. omega (arith, c.done s, l) })

pub Reach-Counts : {t : Threads} → Reach start_all t → (left : ℕ) × Counts left t
unfolding start_all
Reach-Counts here = (0, record { counted = refl; done = λ s. cc })
Reach-Counts (next r s) =
    let (left, c) = Reach-Counts r in let (more, c') = Step-Counts left c s in (left + more, c')

-- A thread that is out of its loop.
abbrev pub IsEnded : Task → Type 0
IsEnded t = t.place ≡ ended

ended-of_weight : (place : Place) → weight place ≡ 0 → place ≡ ended
ended-of_weight unstarted e = absurd (omega (arith, e))
ended-of_weight at_point e = absurd (omega (arith, e))
ended-of_weight handling e = absurd (omega (arith, e))
ended-of_weight ended e = refl

all-IsEnded : (ts : List Task) → alive ts ≡ 0 → All IsEnded ts
all-IsEnded [] e = tt
all-IsEnded (t ∷ ts) e =
    (ended-of_weight t.place (omega (arith, e)), all-IsEnded ts (omega (arith, e)))

-- In every state that the five threads, start and stop can reach from the beginning of start, if
-- stop has returned from its wait, every thread has been started and is out of its loop.
pub stop-after_all : (t : Threads) → Reach start_all t → t.stopped ≡ true → All IsEnded t.tasks
stop-after_all t r s = all-IsEnded t.tasks ((Reach-Counts r).1.done s)

-- With a loop left without `dead`, the count stays above 0.
pub record Stuck (t : Threads) : Type 0 where
  pub left : ℕ
  pub counts : Counts left t
  pub some_left : 0 < left
  pub waiting : t.stopped ≡ false

Step-waiting : {t u : Threads} → Stuck t → Step t u → u.stopped ≡ false
unfolding uncount_thread all_thread_interrupted
Step-waiting k (returns t a e z) = ground (arith, k.counts.counted, k.some_left)
Step-waiting k (initializes t a) = k.waiting
Step-waiting k (cannot_initialize t a) = k.waiting
Step-waiting k (cannot_monitor t a) = k.waiting
Step-waiting k (tries t a) = k.waiting
Step-waiting k (connects t a) = k.waiting
Step-waiting k (gives_up t a b) = k.waiting
Step-waiting k (starts i rest t a b g) = k.waiting
Step-waiting k (has_started t a b) = k.waiting
Step-waiting k (stops_initializing t a b) = k.waiting
Step-waiting k (stops_starting t a b d) = k.waiting
Step-waiting k (begins_stop t a b d) = k.waiting
Step-waiting k (interrupts_next i rest t e) = k.waiting
Step-waiting k (kills rest t e) = k.waiting
Step-waiting k (goes_on i t g) = k.waiting
Step-waiting k (comes_back i flag t g) = k.waiting
Step-waiting k (dies i t g) = k.waiting
Step-waiting k (breaks flag t g) = k.waiting

Step-Stuck : {t u : Threads} → Stuck t → Step t u → Stuck u
Step-Stuck k s =
    let (more, c) = Step-Counts k.left k.counts s in
    record {
      left = k.left + more;
      counts = c;
      some_left = omega (arith, k.some_left);
      waiting = Step-waiting k s;
    }

Reach-Stuck : {t u : Threads} → Stuck t → Reach t u → Stuck u
Reach-Stuck k here = k
Reach-Stuck k (next r s) = Step-Stuck (Reach-Stuck k r) s

-- Once the loop of monitor_hwsim_loop is left because init fails, in a state that can be reached
-- from the beginning of start and in which stop has not returned from its wait, stop has not
-- returned from it in any state that can be reached from there.
pub breaks-never_stopped :
    (flag : Bool) (t u : Threads)
    → Reach start_all t
    → At monitorloop_task flag handling t
    → t.stopped ≡ false
    → Reach (record t { tasks = change_task (moved ended) monitorloop_task t.tasks }) u
    → u.stopped ≡ false
breaks-never_stopped flag t u r g w r' =
    let (left, c) = Reach-Counts r in
    let (more, c') = Step-Counts left c (breaks flag t g) in
    let l = alive-moved ended handling flag monitorloop_task t.tasks g in
    let t' : Threads = record t { tasks = change_task (moved ended) monitorloop_task t.tasks } in
    let k : Stuck t' = record {
      left = left + 1;
      counts = record {
        counted = omega (arith, c.counted, l);
        done = λ s. omega (arith, c.done s, l);
      };
      some_left = omega arith;
      waiting = w;
    } in
    (Reach-Stuck k r').waiting
