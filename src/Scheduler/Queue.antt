-- ===== src/Scheduler/Queue.antt =====
-- src/scheduler.cpp, `pickNextTaskLocked`, and include/mycoroutine/scheduler.h, `scheduleEx`: the
-- queue's operations. An iterator into the deque is a position.
use coroutine_lib.Prelude.{
  ℕ, ◌+◌, ◌%◌, Bool, true, false, ◌||◌, not, Option, none, some, List, [], ◌∷◌, ◌++◌, if◌then◌else◌,
  is_some, is_empty, erase_at, u64_mod,
}
use coroutine_lib.Prelude.Int.{ℤ}
use coroutine_lib.Scheduler.{
  Scheduler, ScheduleTask, ScheduleOptions, SchedulePolicy, fifo, match_thread, better,
}

-- An iterator into the queue is a position with the task that stands there; `none` is `end()`.
abbrev pub Cursor : Type 0
Cursor = Option (ℕ × ScheduleTask)

-- The FIFO loop, with its `break`.
unfoldable pub fifo_scan : ℤ → ℕ → Bool → List ScheduleTask → Cursor × Bool
fifo_scan thread_id i tickle_me [] = (none, tickle_me)
fifo_scan thread_id i tickle_me (task ∷ rest) =
    let later = fifo_scan thread_id (i + 1) true rest in
    if match_thread thread_id task then (some (i, task), tickle_me) else later

-- The body of the selection loop: what becomes of `best_it`.
unfoldable pub visit : Scheduler → ℤ → ℕ → ScheduleTask → Cursor → Cursor
visit s thread_id i task best =
    if match_thread thread_id task
    then elim best [
      | none ↦ some (i, task)
      | some (j, leader) ↦ if better s task leader then some (i, task) else some (j, leader)
    ]
    else best

unfoldable pub best_scan : Scheduler → ℤ → ℕ → Cursor → Bool → List ScheduleTask → Cursor × Bool
best_scan s thread_id i best tickle_me [] = (best, tickle_me)
best_scan s thread_id i best tickle_me (task ∷ rest) =
    best_scan s thread_id (i + 1) (visit s thread_id i task best)
      (tickle_me || not (match_thread thread_id task)) rest

-- `out_task`, when the code returns true, with `tickle_me` and the scheduler that it leaves.
pub record Pick : Type 0 where
  pub out_task : Option ScheduleTask
  pub tickle_me : Bool
  pub after : Scheduler

-- Both branches end in the same statements: take the task out of the queue.
unfoldable pub take_out : Scheduler → Cursor × Bool → Pick
take_out s (none, tickle_me) = record { out_task = none; tickle_me = tickle_me; after = s }
take_out s (some (i, task), tickle_me) =
    let tasks = erase_at i s.tasks in
    record {
      out_task = some task;
      tickle_me = tickle_me || not (is_empty tasks);
      after = record s { tasks = tasks };
    }

-- The two loops, by the policy.
unfoldable pub find_by : SchedulePolicy → ℤ → Scheduler → Cursor × Bool
find_by fifo thread_id s = fifo_scan thread_id 0 false s.tasks
find_by _ thread_id s = best_scan s thread_id 0 none false s.tasks

unfoldable pub pick_next_task_locked : ℤ → Scheduler → Pick
pick_next_task_locked thread_id s = take_out s (find_by s.policy thread_id s)

-- The body of `scheduleEx` under the lock, for a task made of `fc`; the result is `need_tickle`.
unfoldable pub schedule_ex : Option ℕ → Option ℕ → ScheduleOptions → Scheduler → Scheduler × Bool
schedule_ex fiber cb options s =
    let need_tickle = is_empty s.tasks in
    if is_some fiber || is_some cb
    then (
      record s { tasks = s.tasks ++ task ∷ []; task_sequence = (s.task_sequence + 1) % u64_mod },
      need_tickle,
    )
    else (s, need_tickle)
  where
    task : ScheduleTask
    task = record {
      fiber = fiber;
      cb = cb;
      thread = options.thread;
      priority = options.priority;
      mlfq_level = 0;
      deadline_ms = options.deadline_ms;
      sequence = s.task_sequence;
    }
