-- ===== src/Scheduler.antt =====
-- include/mycoroutine/scheduler.h and src/scheduler.cpp: the task queue and its policies.
-- A `shared_ptr<Fiber>` is the number of its fiber and a `std::function` the number of its
-- callback; `none` is the null pointer and the empty function.
pub mod Queue
pub mod Order
pub mod Choice
pub mod Pick
pub mod Run
pub mod Numbering
pub mod Aging
pub mod Workers
pub mod Loop
pub mod Rounds
pub mod Drain
pub mod Lifecycle
pub mod Threads
mod Examples
use coroutine_lib.Prelude.{
  ℕ, ◌+◌, ◌-◌, ◌/◌, ◌%◌, Bool, true, false, ◌||◌, ◌&&◌, not, Option, none, some, List, [], ◌∷◌,
  ◌++◌, ltb, leb, ◌==◌, if◌then◌else◌, is_some, is_empty, erase_at, u64_mod,
}
use mathlib.Core.Bool.{beq}
use coroutine_lib.Prelude.Int.{ℤ, int_lt, int_eq, minus_one}

pub data SchedulePolicy : Type 0 where
  fifo priority mlfq edf hybrid : SchedulePolicy

pub record ScheduleOptions : Type 0 where
  pub thread : ℤ
  pub priority : ℤ
  pub deadline_ms : ℕ

pub record MlfqConfig : Type 0 where
  pub levels : ℕ  -- uint8_t
  pub demote_on_yield : Bool
  pub enable_aging : Bool
  pub aging_sequence_gap : ℕ  -- uint64_t

pub record ScheduleTask : Type 0 where
  pub fiber : Option ℕ
  pub cb : Option ℕ
  pub thread : ℤ
  pub priority : ℤ
  pub mlfq_level : ℕ  -- uint8_t
  pub deadline_ms : ℕ  -- uint64_t
  pub sequence : ℕ  -- uint64_t

-- The fields that the queue's lock guards.
pub record Scheduler : Type 0 where
  pub tasks : List ScheduleTask
  pub policy : SchedulePolicy
  pub mlfq_config : MlfqConfig
  pub task_sequence : ℕ  -- uint64_t
  pub active_thread_count : ℕ
  pub idle_thread_count : ℕ
  pub stop_flag : Bool

unfoldable pub normalize_mlfq_config : MlfqConfig → MlfqConfig
normalize_mlfq_config config = record config {
  levels = if config.levels == 0 then 1 else config.levels;
  aging_sequence_gap = if config.aging_sequence_gap == 0 then 1 else config.aging_sequence_gap;
}

unfoldable pub set_policy : SchedulePolicy → Scheduler → Scheduler
set_policy p s = record s { policy = p }

unfoldable pub set_mlfq_config : MlfqConfig → Scheduler → Scheduler
unfolding normalize_mlfq_config
set_mlfq_config config s = record s { mlfq_config = normalize_mlfq_config config }

-- `match_thread`
unfoldable pub match_thread : ℤ → ScheduleTask → Bool
match_thread thread_id task = int_eq task.thread minus_one || int_eq task.thread thread_id

unfoldable pub better_priority : ScheduleTask → ScheduleTask → Bool
better_priority lhs rhs =
    if not (int_eq lhs.priority rhs.priority)
    then int_lt rhs.priority lhs.priority
    else ltb lhs.sequence rhs.sequence

-- `static_cast<uint8_t>(m_mlfqConfig.levels - 1)`
unfoldable pub max_level : MlfqConfig → ℕ
max_level c = (c.levels + 255) % 256

unfoldable pub base_level : MlfqConfig → ScheduleTask → ℕ
unfolding max_level
base_level c task = if ltb (max_level c) task.mlfq_level then max_level c else task.mlfq_level

unfoldable pub effective_mlfq_level : MlfqConfig → ℕ → ScheduleTask → ℕ
unfolding base_level
effective_mlfq_level c task_sequence task =
    let base = base_level c task in
    if not c.enable_aging || base == 0 || leb task_sequence task.sequence
    then base
    else let promote = (task_sequence - task.sequence) / c.aging_sequence_gap in
      if leb base promote then 0 else base - promote

unfoldable pub better_mlfq : MlfqConfig → ℕ → ScheduleTask → ScheduleTask → Bool
better_mlfq c now lhs rhs =
    let lhs_level = effective_mlfq_level c now lhs in
    let rhs_level = effective_mlfq_level c now rhs in
    if not (lhs_level == rhs_level) then ltb lhs_level rhs_level else ltb lhs.sequence rhs.sequence

unfoldable pub better_edf : ScheduleTask → ScheduleTask → Bool
better_edf lhs rhs =
    let lhs_has_deadline = ltb 0 lhs.deadline_ms in
    let rhs_has_deadline = ltb 0 rhs.deadline_ms in
    if not (beq lhs_has_deadline rhs_has_deadline)
    then lhs_has_deadline
    else if lhs_has_deadline && rhs_has_deadline && not (lhs.deadline_ms == rhs.deadline_ms)
    then ltb lhs.deadline_ms rhs.deadline_ms
    else ltb lhs.sequence rhs.sequence

unfoldable pub better_hybrid : ScheduleTask → ScheduleTask → Bool
better_hybrid lhs rhs =
    let lhs_has_deadline = ltb 0 lhs.deadline_ms in
    let rhs_has_deadline = ltb 0 rhs.deadline_ms in
    if not (beq lhs_has_deadline rhs_has_deadline)
    then lhs_has_deadline
    else if lhs_has_deadline && rhs_has_deadline
    then (if not (lhs.deadline_ms == rhs.deadline_ms)
        then ltb lhs.deadline_ms rhs.deadline_ms
        else better_priority lhs rhs)
    else better_priority lhs rhs

-- The `switch` of the selection loop.
unfoldable pub better : Scheduler → ScheduleTask → ScheduleTask → Bool
better s lhs rhs = elim s.policy [
  | fifo ↦ false
  | priority ↦ better_priority lhs rhs
  | mlfq ↦ better_mlfq s.mlfq_config s.task_sequence lhs rhs
  | edf ↦ better_edf lhs rhs
  | hybrid ↦ better_hybrid lhs rhs
]
