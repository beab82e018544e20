-- ===== src/Examples/Interrupting.antt =====
-- The threads of the client of ckernelwifi.cc and cthread.cc at work: they are started, stop
-- interrupts them, and each leaves its loop.
use vwifi.Prelude.{ℕ, ◌≡◌, refl, Bool, true, false, List, [], ◌∷◌, All}
use vwifi.Prelude.Int.{pos, ◌-ℤ◌}
use vwifi.Threads.{
  Task, Stage, Action, Threads, unstarted, at_point, handling, ended, monitoring, connecting,
  starting, joining, interrupts, kills_server, start_all, Reach, here, next, initializes, tries,
  connects, starts, goes_on, has_started, begins_stop, interrupts_next, kills, dies, returns,
  monitorloop_task, moved, change_task, interrupt, uncount_thread, all_thread_interrupted,
}
use vwifi.Threads.Stopping.{IsEnded, stop-after_all, breaks-never_stopped}

abbrev fresh : Task
fresh = record { interrupt_flag = false; place = unstarted }

abbrev loops : Task
loops = record { interrupt_flag = false; place = at_point }

abbrev in_handler : Task
in_handler = record { interrupt_flag = false; place = handling }

abbrev flagged : Task
flagged = record { interrupt_flag = true; place = at_point }

abbrev left : Task
left = record { interrupt_flag = true; place = ended }

abbrev state : List Task → ℕ → Bool → Bool → Stage → List ℕ → Bool → List Action → Bool → Threads
state tasks n being_initialized being_started stage to_start stopping pending stopped = record {
  tasks = tasks;
  number_thread = pos n;
  being_initialized = being_initialized;
  being_started = being_started;
  stage = stage;
  to_start = to_start;
  stopping = stopping;
  pending = pending;
  stopped = stopped;
}

to_threads : Reach start_all (
    state
      (loops ∷ loops ∷ loops ∷ fresh ∷ fresh ∷ [])
      5
      false
      true
      starting
      (3 ∷ 4 ∷ [])
      false
      ([])
      false)
unfolding start_all change_task interrupt uncount_thread all_thread_interrupted
to_threads =
    next
      {u = state (loops ∷ loops ∷ loops ∷ fresh ∷ fresh ∷ []) 5 false true starting (3 ∷ 4 ∷ [])
        false ([]) false}
      (next
        {u = state (loops ∷ loops ∷ fresh ∷ fresh ∷ fresh ∷ []) 5 false true starting
          (2 ∷ 3 ∷ 4 ∷ []) false ([]) false}
        (next
          {u = state (loops ∷ fresh ∷ fresh ∷ fresh ∷ fresh ∷ []) 5 false true starting
            (1 ∷ 2 ∷ 3 ∷ 4 ∷ []) false ([]) false}
          (next
            {u = state (fresh ∷ fresh ∷ fresh ∷ fresh ∷ fresh ∷ []) 5 false true starting
              (0 ∷ 1 ∷ 2 ∷ 3 ∷ 4 ∷ []) false ([]) false}
            (next
              {u = state (fresh ∷ fresh ∷ fresh ∷ fresh ∷ fresh ∷ []) 5 false true connecting
                (0 ∷ 1 ∷ 2 ∷ 3 ∷ 4 ∷ []) false ([]) false}
              (next
                {u = state (fresh ∷ fresh ∷ fresh ∷ fresh ∷ fresh ∷ []) 5 false false monitoring
                  (0 ∷ 1 ∷ 2 ∷ 3 ∷ 4 ∷ []) false ([]) false}
                (here) (initializes _ refl))
              (tries _ refl))
            (connects _ refl))
          (starts 0 _ _ refl refl refl))
        (starts 1 _ _ refl refl refl))
      (starts 2 _ _ refl refl refl)

all_start :
    Reach start_all (
      state
        (loops ∷ loops ∷ loops ∷ loops ∷ loops ∷ [])
        5
        false
        false
        joining
        ([])
        false
        ([])
        false)
unfolding start_all change_task interrupt uncount_thread all_thread_interrupted
all_start =
    next
      {u = state (loops ∷ loops ∷ loops ∷ loops ∷ loops ∷ []) 5 false false joining ([]) false ([])
        false}
      (next
        {u = state (loops ∷ loops ∷ loops ∷ loops ∷ loops ∷ []) 5 false true starting ([]) false
          ([]) false}
        (next
          {u = state (loops ∷ loops ∷ loops ∷ loops ∷ fresh ∷ []) 5 false true starting (4 ∷ [])
            false ([]) false}
          (to_threads) (starts 3 _ _ refl refl refl))
        (starts 4 _ _ refl refl refl))
      (has_started _ refl refl)

all_flagged : Reach start_all (
    state
      (flagged ∷ flagged ∷ flagged ∷ flagged ∷ flagged ∷ [])
      5
      false
      false
      joining
      ([])
      true
      ([])
      false)
unfolding start_all change_task interrupt uncount_thread all_thread_interrupted
all_flagged =
    next
      {u = state (flagged ∷ flagged ∷ flagged ∷ flagged ∷ flagged ∷ []) 5 false false joining ([])
        true ([]) false}
      (next
        {u = state (flagged ∷ flagged ∷ flagged ∷ loops ∷ flagged ∷ []) 5 false false joining ([])
          true (interrupts 3 ∷ []) false}
        (next
          {u = state (flagged ∷ flagged ∷ loops ∷ loops ∷ flagged ∷ []) 5 false false joining ([])
            true (interrupts 2 ∷ interrupts 3 ∷ []) false}
          (next
            {u = state (loops ∷ flagged ∷ loops ∷ loops ∷ flagged ∷ []) 5 false false joining ([])
              true (interrupts 0 ∷ interrupts 2 ∷ interrupts 3 ∷ []) false}
            (next
              {u = state (loops ∷ loops ∷ loops ∷ loops ∷ flagged ∷ []) 5 false false joining ([])
                true (interrupts 1 ∷ interrupts 0 ∷ interrupts 2 ∷ interrupts 3 ∷ []) false}
              (next
                {u = state (loops ∷ loops ∷ loops ∷ loops ∷ flagged ∷ []) 5 false false joining ([])
                  true
                  (kills_server ∷ interrupts 1 ∷ interrupts 0 ∷ interrupts 2 ∷ interrupts 3 ∷ [])
                  false}
                (next
                  {u = state (loops ∷ loops ∷ loops ∷ loops ∷ loops ∷ []) 5 false false joining ([])
                    true
                    (interrupts 4
                      ∷ kills_server
                      ∷ interrupts 1
                      ∷ interrupts 0
                      ∷ interrupts 2
                      ∷ interrupts 3
                      ∷ [])
                    false}
                  (all_start) (begins_stop _ refl refl refl))
                (interrupts_next 4 _ _ refl))
              (kills _ _ refl))
            (interrupts_next 1 _ _ refl))
          (interrupts_next 0 _ _ refl))
        (interrupts_next 2 _ _ refl))
      (interrupts_next 3 _ _ refl)

abbrev all_left : Threads
all_left = state (left ∷ left ∷ left ∷ left ∷ left ∷ []) 0 false false joining ([]) true ([]) true

all_returned : Reach start_all all_left
unfolding start_all change_task interrupt uncount_thread all_thread_interrupted ◌-ℤ◌
all_returned =
    next
      {u = state (left ∷ left ∷ left ∷ left ∷ left ∷ []) 0 false false joining ([]) true ([]) true}
      (next
        {u = state (left ∷ left ∷ left ∷ left ∷ left ∷ []) 0 false false joining ([]) true ([])
          false}
        (next
          {u = state (left ∷ left ∷ left ∷ left ∷ flagged ∷ []) 1 false false joining ([]) true ([])
            false}
          (next
            {u = state (left ∷ left ∷ left ∷ flagged ∷ flagged ∷ []) 2 false false joining ([]) true
              ([]) false}
            (next
              {u = state (left ∷ left ∷ flagged ∷ flagged ∷ flagged ∷ []) 3 false false joining ([])
                true ([]) false}
              (next
                {u = state (left ∷ flagged ∷ flagged ∷ flagged ∷ flagged ∷ []) 4 false false joining
                  ([]) true ([]) false}
                (all_flagged) (dies 0 _ refl))
              (dies 1 _ refl))
            (dies 2 _ refl))
          (dies 3 _ refl))
        (dies 4 _ refl))
      (returns _ refl refl refl)

abbrev in_round : Threads
in_round =
    state (loops ∷ loops ∷ in_handler ∷ fresh ∷ fresh ∷ []) 5 false true starting (3 ∷ 4 ∷ []) false
      ([]) false

round_begins : Reach start_all in_round
unfolding start_all change_task
round_begins = next to_threads (goes_on 2 _ refl)

stop-after_all_example : All IsEnded all_left.tasks
stop-after_all_example = stop-after_all all_left all_returned refl

breaks-never_stopped_example : in_round.stopped ≡ false
unfolding change_task
breaks-never_stopped_example =
    breaks-never_stopped false in_round
      (record in_round { tasks = change_task (moved ended) monitorloop_task in_round.tasks })
      round_begins refl refl here
