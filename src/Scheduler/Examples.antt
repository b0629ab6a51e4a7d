-- ===== src/Scheduler/Examples.antt =====
-- A queue of four tasks under each policy: tests of the scheduler's operations, and instances of
-- the theorems about them.
use coroutine_lib.Prelude.{
  ℕ, ◌≡◌, refl, ◌≢◌, true, false, Option, none, some, List, [], ◌∷◌, ◌++◌, ◌↔◌, arith, All,
}
use coroutine_lib.Prelude.Int.{pos, minus_one}
use coroutine_lib.Scheduler.{
  Scheduler, ScheduleTask, ScheduleOptions, MlfqConfig, SchedulePolicy, fifo, priority, mlfq,
  match_thread, effective_mlfq_level, better_priority, better_mlfq, better,
}
use coroutine_lib.Scheduler.Queue.{
  pick_next_task_locked, fifo_scan, best_scan, visit, take_out, find_by,
}
use coroutine_lib.Scheduler.Choice.{Leads}
use coroutine_lib.Scheduler.Pick.{pick-Leads}
use coroutine_lib.Scheduler.Numbering.{IsNumbered, Yields, pick_strict}
use coroutine_lib.Scheduler.Aging.{NotPassed, pick_no_overtaking}
use coroutine_lib.Scheduler.Run.{stopping, begin_task}
use coroutine_lib.Fiber.{term}
use coroutine_lib.Scheduler.Loop.{Effect}
use coroutine_lib.Scheduler.Drain.{Drains, run_loop-Drains}
use coroutine_lib.Scheduler.Threads.{Lives, new_crew-Lives}
use coroutine_lib.Scheduler.Workers.{
  System, IsCounted, Reach, here, next, start, stopping_quiescent,
}

abbrev task : ℕ → ℕ → ℕ → ℕ → ScheduleTask
task n prio level deadline = record {
  fiber = some n;
  cb = none;
  thread = minus_one;
  priority = pos prio;
  mlfq_level = level;
  deadline_ms = deadline;
  sequence = n;
}

-- Task 1 belongs to thread 7.
abbrev pinned : ScheduleTask
pinned = record (task 1 9 0 10) { thread = pos 7 }

abbrev queue : List ScheduleTask
queue = pinned ∷ task 2 1 2 0 ∷ task 3 5 1 50 ∷ task 4 5 0 40 ∷ []

abbrev defaults : MlfqConfig
defaults = record {
  levels = 3;
  demote_on_yield = true;
  enable_aging = true;
  aging_sequence_gap = 64;
}

abbrev loaded : SchedulePolicy → Scheduler
loaded p = record {
  tasks = queue;
  policy = p;
  mlfq_config = defaults;
  task_sequence = 5;
  active_thread_count = 0;
  idle_thread_count = 0;
  stop_flag = false;
}

abbrev picked : SchedulePolicy → Option ScheduleTask
picked p = (pick_next_task_locked (pos 3) (loaded p)).out_task

loaded-IsNumbered : (p : SchedulePolicy) → IsNumbered (loaded p)
loaded-IsNumbered p = record { increasing = omega arith; below = omega arith }

picked_fifo : picked fifo ≡ some (task 2 1 2 0)
unfolding pick_next_task_locked find_by fifo_scan take_out match_thread
picked_fifo = refl

picked_priority : picked priority ≡ some (task 3 5 1 50)
unfolding pick_next_task_locked find_by best_scan visit take_out match_thread better better_priority
picked_priority = refl

picked_mlfq : picked mlfq ≡ some (task 4 5 0 40)
unfolding pick_next_task_locked find_by best_scan visit take_out match_thread better better_mlfq
    effective_mlfq_level
picked_mlfq = refl

priority-ne-fifo : priority ≢ fifo
priority-ne-fifo = λ e. cc

pick-Leads_example :
    (l : Leads (loaded priority) (pos 3) queue (task 3 5 1 50)) × ((pick_next_task_locked
        (pos 3)
        (loaded priority)).after
      ≡ record (loaded priority) { tasks = l.pre ++ l.post })
pick-Leads_example =
    pick-Leads (pos 3) (loaded priority) (task 3 5 1 50) priority-ne-fifo picked_priority

pick_strict_example :
    All
      (Yields (loaded priority) (pos 3) (task 3 5 1 50))
      (pick_next_task_locked (pos 3) (loaded priority)).after.tasks
pick_strict_example =
    pick_strict (pos 3) (loaded priority) (task 3 5 1 50) (loaded-IsNumbered priority)
      priority-ne-fifo picked_priority

pick_no_overtaking_example :
    All
      (NotPassed (loaded mlfq) (pos 3) (task 4 5 0 40))
      (pick_next_task_locked (pos 3) (loaded mlfq)).after.tasks
pick_no_overtaking_example =
    pick_no_overtaking (pos 3) (loaded mlfq) (task 4 5 0 40) (loaded-IsNumbered mlfq) refl
      picked_mlfq

abbrev anywhere : ScheduleOptions
anywhere = record { thread = minus_one; priority = pos 0; deadline_ms = 0 }

abbrev at_rest : System
at_rest = record { scheduler = loaded fifo; running = [] }

at_rest-IsCounted : IsCounted at_rest
at_rest-IsCounted = record {
  counted = refl;
  queued = (refl, (refl, (refl, (refl, tt))));
  held = tt;
}

taken-task : (begin_task (pos 3) (loaded fifo)).out_task ≡ some (task 2 1 2 0)
unfolding begin_task pick_next_task_locked find_by fifo_scan take_out match_thread
taken-task = refl

abbrev one_busy : System
one_busy = record {
  scheduler = (begin_task (pos 3) (loaded fifo)).after;
  running = task 2 1 2 0 ∷ [];
}

one_busy-Reach : Reach at_rest one_busy
one_busy-Reach = next here (start (pos 3) (task 2 1 2 0) taken-task)

stopping_quiescent_example : (stopping one_busy.scheduler ≡ true) ↔ (
    (one_busy.scheduler.stop_flag ≡ true)
    × (one_busy.scheduler.tasks ≡ [])
    × (one_busy.running ≡ []))
stopping_quiescent_example = stopping_quiescent at_rest-IsCounted one_busy-Reach

-- A stopped scheduler with three tasks, under the policy PRIORITY.
abbrev stopped_queue : Scheduler
stopped_queue = record (loaded priority) {
  tasks = task 2 1 2 0 ∷ task 3 5 1 50 ∷ task 4 5 0 40 ∷ [];
  stop_flag = true;
}

abbrev quiet : Effect
quiet t s = (s, term)

run_loop-Drains_example : Drains 5 quiet (pos 7) false stopped_queue
unfolding match_thread
run_loop-Drains_example =
    run_loop-Drains 5 quiet (pos 7) false stopped_queue (λ t s. refl)
      (record {
        marked = refl;
        inactive = refl;
        eligible = ((refl, refl), ((refl, refl), ((refl, refl), tt)));
      })
      (omega arith)

-- Three workers, the caller among them.
new_crew-Lives_example : Lives 3 true (pos 1) (pos 2 ∷ pos 3 ∷ []) (loaded fifo)
new_crew-Lives_example =
    new_crew-Lives 3 true (pos 1) (pos 2 ∷ pos 3 ∷ []) (loaded fifo) (omega arith) refl refl
