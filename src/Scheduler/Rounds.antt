-- ===== src/Scheduler/Rounds.antt =====
-- src/scheduler.cpp, `run`: a round of a worker whose tasks leave the scheduler as it is.
use coroutine_lib.Prelude.{
  ◌+◌, ◌-◌, ◌≡◌, refl, ap, Bool, true, false, ◌&&◌, none, some, List, [], ◌∷◌, is_some, arith, All,
  Bool-cases, inl, inr,
}
use coroutine_lib.Prelude.Int.{ℤ}
use coroutine_lib.Fiber.{term}
use coroutine_lib.Scheduler.{Scheduler, ScheduleTask, match_thread}
use coroutine_lib.Scheduler.Queue.{pick_next_task_locked}
use coroutine_lib.Scheduler.Choice.{AllForeign}
use coroutine_lib.Scheduler.Pick.{pick_none-AllForeign}
use coroutine_lib.Scheduler.Run.{
  begin_task, end_task, after_fiber, requeue, is_ready, is_mlfq, stopping,
}
use coroutine_lib.Scheduler.Workers.{is_runnable}
use coroutine_lib.Scheduler.Loop.{Effect, ran, run_idle, run_task, run_round}

-- The scheduler is marked, no task is in hand, and every task of the queue may run on the thread.
pub record IsDraining (thread_id : ℤ) (s : Scheduler) : Type 0 where
  pub marked : s.stop_flag ≡ true
  pub inactive : s.active_thread_count ≡ 0
  pub eligible : All (λ t. (match_thread thread_id t ≡ true) × (is_runnable t ≡ true)) s.tasks

-- A task runs to its end, and leaves the scheduler as it is.
abbrev pub IsQuiet : Effect → Type 0
IsQuiet effect = (t : ScheduleTask) (s : Scheduler) → effect t s ≡ (s, term)

no_foreigner :
    (thread_id : ℤ) (tasks : List ScheduleTask)
    → All (λ t. (match_thread thread_id t ≡ true) × (is_runnable t ≡ true)) tasks
    → AllForeign thread_id tasks
    → tasks ≡ []
no_foreigner thread_id [] h f = refl
no_foreigner thread_id (t ∷ ts) ((m, r), h) (f, fs) = cc

-- A round with an empty queue.
module _ (thread_id : ℤ) (s : Scheduler) (d : IsDraining thread_id s) where
  pub none_left : (pick_next_task_locked thread_id s).out_task ≡ none → s.tasks ≡ []
  none_left e = no_foreigner thread_id s.tasks d.eligible ((pick_none-AllForeign thread_id s).0 e)

  pub stops : s.tasks ≡ [] → stopping s ≡ true
  unfolding stopping
  stops e = simp (stopping, d.marked, d.inactive, e)

begin_task_waits :
    (thread_id : ℤ) (s : Scheduler)
    → (pick_next_task_locked thread_id s).out_task ≡ none
    → (pick_next_task_locked thread_id s).after ≡ s
    → ((begin_task thread_id s).out_task ≡ none) × ((begin_task thread_id s).after ≡ s)
unfolding begin_task
begin_task_waits thread_id s e left = rw (begin_task, e) (refl, left)

pub round_idles :
    (effect : Effect) (thread_id : ℤ) (idle_ended : Bool) (s : Scheduler)
    → (pick_next_task_locked thread_id s).out_task ≡ none
    → (pick_next_task_locked thread_id s).after ≡ s
    → run_round effect thread_id idle_ended s ≡ run_idle idle_ended s
unfolding run_round
round_idles effect thread_id idle_ended s e left =
    let (out, after) = begin_task_waits thread_id s e left in
    rw (run_round, out) (ap (run_idle idle_ended) after)

and_false : (a b : Bool) → (a && b && false) ≡ false
and_false true true = refl
and_false true false = refl
and_false false b = refl

requeue_ended : (t : ScheduleTask) (s : Scheduler) → (requeue term t s).0 ≡ s
unfolding requeue is_ready
requeue_ended t s = rw (requeue, and_false (is_mlfq s) (is_some t.fiber)) refl

-- What is left when a task was run that left nothing behind.
abbrev pub without_task : Scheduler → List ScheduleTask → Scheduler
without_task s tasks = record s {
  tasks = tasks;
  active_thread_count = s.active_thread_count + 1 - 1;
}

abbrev taken : Scheduler → List ScheduleTask → Scheduler
taken s tasks = record s { tasks = tasks; active_thread_count = s.active_thread_count + 1 }

after_fiber_ended : (t : ScheduleTask) (s : Scheduler) → after_fiber term t s ≡ end_task s
unfolding after_fiber
after_fiber_ended t s = ap end_task (requeue_ended t s)

run_task_runs :
    (effect : Effect) (idle_ended : Bool) (s : Scheduler) (t : ScheduleTask)
    → IsQuiet effect
    → is_runnable t ≡ true
    → run_task effect idle_ended t s ≡ ran t (end_task s)
unfolding run_task
run_task_runs effect idle_ended s t quiet runs = elim (Bool-cases (is_some t.fiber)) [
  | inl f ↦ rw (run_task, quiet t s, f, after_fiber_ended t s) refl
  | inr f ↦
      let c : is_some t.cb ≡ true = ground (arith, runs, f) in rw (run_task, quiet t s, f, c) refl
]

begin_task_takes :
    (thread_id : ℤ) (s : Scheduler) (t : ScheduleTask) (tasks : List ScheduleTask)
    → (pick_next_task_locked thread_id s).out_task ≡ some t
    → (pick_next_task_locked thread_id s).after ≡ record s { tasks = tasks }
    → ((begin_task thread_id s).out_task ≡ some t)
      × ((begin_task thread_id s).after ≡ taken s tasks)
unfolding begin_task
begin_task_takes thread_id s t tasks e left = rw (begin_task, e, left) (refl, refl)

pub round_runs :
    (effect : Effect) (thread_id : ℤ) (idle_ended : Bool) (s : Scheduler) (t : ScheduleTask)
    (tasks : List ScheduleTask)
    → IsQuiet effect
    → is_runnable t ≡ true
    → (pick_next_task_locked thread_id s).out_task ≡ some t
    → (pick_next_task_locked thread_id s).after ≡ record s { tasks = tasks }
    → run_round effect thread_id idle_ended s ≡ ran t (without_task s tasks)
unfolding run_round end_task
round_runs effect thread_id idle_ended s t tasks quiet runs e left =
    let (out, after) = begin_task_takes thread_id s t tasks e left in
    rw (run_round, out, after) (run_task_runs effect idle_ended (taken s tasks) t quiet runs)
