-- ===== src/Scheduler/Aging.antt =====
-- src/scheduler.cpp, `effective_mlfq_level`: aging keeps a task from starving under MLFQ.
use coroutine_lib.Prelude.{
  ℕ, ◌+◌, ◌-◌, ◌*◌, ◌/◌, ◌≤◌, ◌<◌, ◌≡◌, ◌⊎◌, true, false, some, arith, All, All-mono,
}
use coroutine_lib.Prelude.Int.{ℤ}
use coroutine_lib.Scheduler.{
  Scheduler, ScheduleTask, MlfqConfig, mlfq, match_thread, better, better_mlfq, base_level,
  effective_mlfq_level,
}
use coroutine_lib.Scheduler.Queue.{pick_next_task_locked}
use coroutine_lib.Scheduler.Numbering.{IsNumbered, Yields, pick_strict}

div_ge : (x g b : ℕ) → 0 < g → b * g ≤ x → b ≤ x / g
div_ge x g b p h = grind arith

-- The base level stays in `uint8_t`, and aging never moves a task to a lower queue.
effective-le-base :
    (c : MlfqConfig) (now : ℕ) (t : ScheduleTask) → effective_mlfq_level c now t ≤ base_level c t
unfolding effective_mlfq_level
effective-le-base c now t = ground arith

-- A task that has seen as many schedulings as its level times the gap counts as one of the top
-- queue, if aging is on.
pub effective_aged :
    (c : MlfqConfig) (now : ℕ) (t : ScheduleTask)
    → c.enable_aging ≡ true
    → 0 < c.aging_sequence_gap
    → t.sequence + base_level c t * c.aging_sequence_gap ≤ now
    → effective_mlfq_level c now t ≡ 0
unfolding effective_mlfq_level
effective_aged c now t on gap waited =
    ground (arith, div_ge (now - t.sequence) c.aging_sequence_gap (base_level c t))

-- A task in the queue cannot run on the thread, is not yet one of the top queue, or was queued
-- after `t`.
abbrev pub NotPassed : Scheduler → ℤ → ScheduleTask → ScheduleTask → Type 0
NotPassed s thread_id t u =
    (match_thread thread_id u ≡ false)
    ⊎ ((0 < effective_mlfq_level s.mlfq_config s.task_sequence u) ⊎ (t.sequence < u.sequence))

mlfq-NotPassed :
    (s : Scheduler) (thread_id : ℤ) (t u : ScheduleTask)
    → s.policy ≡ mlfq
    → Yields s thread_id t u
    → NotPassed s thread_id t u
unfolding better better_mlfq
mlfq-NotPassed s thread_id t u p y = ground arith

-- Under MLFQ, with sequence numbers that grow along the queue, a task of the effective top level
-- that may run on the thread is passed over only for a task with a smaller number.
pub pick_no_overtaking :
    (thread_id : ℤ) (s : Scheduler) (t : ScheduleTask)
    → IsNumbered s
    → s.policy ≡ mlfq
    → (pick_next_task_locked thread_id s).out_task ≡ some t
    → All (NotPassed s thread_id t) (pick_next_task_locked thread_id s).after.tasks
pick_no_overtaking thread_id s t v p e =
    All-mono (Yields s thread_id t) (NotPassed s thread_id t)
      (pick_next_task_locked thread_id s).after.tasks (λ u. mlfq-NotPassed s thread_id t u p)
      (pick_strict thread_id s t v (λ f. cc) e)
