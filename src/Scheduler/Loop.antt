-- ===== src/Scheduler/Loop.antt =====
-- src/scheduler.cpp, `run` and `Scheduler::idle`: the loop of one worker. What a task does to the
-- scheduler while it runs, and the state in which it leaves its fiber, is a parameter.
use coroutine_lib.Prelude.{
  ℕ, zero, suc, ◌+◌, ◌-◌, Bool, Option, none, some, List, [], ◌∷◌, if◌then◌else◌, is_some,
}
use coroutine_lib.Prelude.Int.{ℤ}
use coroutine_lib.Fiber.{State}
use coroutine_lib.Scheduler.{Scheduler, ScheduleTask}
use coroutine_lib.Scheduler.Run.{begin_task, end_task, after_fiber, stopping}

abbrev pub Effect : Type 0
Effect = ScheduleTask → Scheduler → Scheduler × State

-- A round of the loop: a task was run; or the idle fiber, which then has ended or not; or the loop
-- ends.
pub data Round : Type 0 where
  ran : ScheduleTask → Scheduler → Round
  idled : Bool → Scheduler → Round
  ends : Scheduler → Round

-- The idle fiber ends when it finds the scheduler stopping.
unfoldable pub idle_body : Scheduler → Bool
unfolding stopping
idle_body s = stopping s

-- The branch without a task.
unfoldable pub run_idle : Bool → Scheduler → Round
unfolding idle_body
run_idle idle_ended s =
    let counted = record s { idle_thread_count = s.idle_thread_count + 1 } in
    if idle_ended
    then ends s
    else idled (idle_body counted)
        (record counted { idle_thread_count = counted.idle_thread_count - 1 })

-- The branches with a task in hand.
unfoldable pub run_task : Effect → Bool → ScheduleTask → Scheduler → Round
run_task effect idle_ended t s =
    let (s', state) = effect t s in
    if is_some t.fiber
    then ran t (after_fiber state t s')
    else if is_some t.cb
    then ran t (end_task s')
    else run_idle idle_ended s

unfoldable pub run_round : Effect → ℤ → Bool → Scheduler → Round
unfolding begin_task run_task run_idle
run_round effect thread_id idle_ended s =
    let p = begin_task thread_id s in
    elim p.out_task [
      | none ↦ run_idle idle_ended p.after
      | some t ↦ run_task effect idle_ended t p.after
    ]

-- The loop, on fuel, with the tasks that it runs; `none` means that the fuel ran out.
unfoldable pub run_loop : ℕ → Effect → ℤ → Bool → Scheduler → Option (List ScheduleTask × Scheduler)
unfolding run_round
run_loop zero effect thread_id idle_ended s = none
run_loop (suc fuel) effect thread_id idle_ended s = elim (run_round effect thread_id idle_ended s) [
  | ends s' ↦ some ([], s')
  | idled ended s' ↦ run_loop fuel effect thread_id ended s'
  | ran t s' ↦ elim (run_loop fuel effect thread_id idle_ended s') [
    | none ↦ none
    | some (ts, s'') ↦ some (t ∷ ts, s'')
  ]
]
