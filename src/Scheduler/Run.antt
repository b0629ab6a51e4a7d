-- ===== src/Scheduler/Run.antt =====
-- src/scheduler.cpp, `run` and `stopping`: what a worker does to the scheduler's state before and
-- after it runs a task. What the task itself does comes between the two.
use coroutine_lib.Prelude.{
  ◌+◌, ◌-◌, ◌%◌, Bool, true, false, ◌&&◌, [], ◌∷◌, ◌++◌, ltb, ◌==◌, if◌then◌else◌, is_some,
  is_empty, u64_mod,
}
use coroutine_lib.Prelude.Int.{ℤ}
use coroutine_lib.Fiber.{State, ready}
use coroutine_lib.Scheduler.{Scheduler, ScheduleTask, MlfqConfig, mlfq, max_level}
use coroutine_lib.Scheduler.Queue.{Pick, pick_next_task_locked}

-- The locked block at the head of the loop: a task in hand counts as an active thread.
unfoldable pub begin_task : ℤ → Scheduler → Pick
begin_task thread_id s =
    let p = pick_next_task_locked thread_id s in
    if is_some p.out_task
    then record p {
      after = record p.after { active_thread_count = p.after.active_thread_count + 1 };
    }
    else p

unfoldable pub end_task : Scheduler → Scheduler
end_task s = record s { active_thread_count = s.active_thread_count - 1 }

-- `++task.mlfq_level`, if the configuration asks for it and there is a lower level.
unfoldable pub demote : MlfqConfig → ScheduleTask → ScheduleTask
unfolding max_level
demote c task =
    if c.demote_on_yield && ltb task.mlfq_level (max_level c)
    then record task { mlfq_level = (task.mlfq_level + 1) % 256 }
    else task

unfoldable pub is_mlfq : Scheduler → Bool
is_mlfq s = elim s.policy [ mlfq ↦ true | _ ↦ false ]

unfoldable pub is_ready : State → Bool
is_ready ready = true
is_ready _ = false

-- The second locked block: a fiber that comes back READY is queued again under MLFQ.
unfoldable pub requeue : State → ScheduleTask → Scheduler → Scheduler × Bool
unfolding demote is_mlfq is_ready
requeue state task s =
    if is_mlfq s && is_some task.fiber && is_ready state
    then (
      record s {
        tasks = s.tasks ++ record (demote s.mlfq_config task) { sequence = s.task_sequence } ∷ [];
        task_sequence = (s.task_sequence + 1) % u64_mod;
      },
      true,
    )
    else (s, false)

-- What follows `resume` for a task that holds a fiber.
unfoldable pub after_fiber : State → ScheduleTask → Scheduler → Scheduler
unfolding requeue end_task
after_fiber state task s = end_task (requeue state task s).0

unfoldable pub stopping : Scheduler → Bool
stopping s = s.stop_flag && is_empty s.tasks && s.active_thread_count == 0

-- `stop` marks the scheduler; the rest of it wakes and joins the threads.
unfoldable pub mark_stopping : Scheduler → Scheduler
unfolding stopping
mark_stopping s = if stopping s then s else record s { stop_flag = true }
