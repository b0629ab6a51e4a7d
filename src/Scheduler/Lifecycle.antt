-- ===== src/Scheduler/Lifecycle.antt =====
-- src/scheduler.cpp: the constructor, `start` and `stop`.
-- A thread is its id; those that `new Thread` gives are a parameter. A failed assertion is `none`.
use coroutine_lib.Prelude.{
  ℕ, ◌+◌, ◌-◌, Bool, true, false, not, Option, none, some, List, [], ◌∷◌, ◌++◌, ◌==◌, if◌then◌else◌,
  is_empty, length,
}
use coroutine_lib.Prelude.Int.{ℤ, minus_one}
use coroutine_lib.Scheduler.{Scheduler}
use coroutine_lib.Scheduler.Run.{stopping, mark_stopping}

-- The fields of `Scheduler` that are about its threads.
pub record Crew : Type 0 where
  pub scheduler : Scheduler
  pub use_caller : Bool
  pub thread_count : ℕ
  pub root_thread : ℤ
  pub thread_ids : List ℤ
  pub threads : List ℤ
  pub has_scheduler_fiber : Bool

-- The constructor: `caller` is the id of the calling thread, `has_scheduler` whether that thread
-- has a scheduler already.
unfoldable pub new_crew : ℕ → Bool → ℤ → Bool → Scheduler → Option Crew
new_crew threads use_caller caller has_scheduler s =
    let alone : Crew = record {
      scheduler = s;
      use_caller = false;
      thread_count = threads;
      root_thread = minus_one;
      thread_ids = [];
      threads = [];
      has_scheduler_fiber = false;
    } in
    let with_caller = record alone {
      use_caller = true;
      thread_count = threads - 1;
      root_thread = caller;
      thread_ids = caller ∷ [];
      has_scheduler_fiber = true;
    } in
    if threads == 0
    then none
    else if has_scheduler
    then none
    else some (if use_caller then with_caller else alone)

-- `start`, with the ids of the new threads.
unfoldable pub start : List ℤ → Crew → Option Crew
start ids c =
    if c.scheduler.stop_flag
    then some c
    else if not (is_empty c.threads)
    then none
    else if length ids == c.thread_count
    then some (record c { threads = ids; thread_ids = c.thread_ids ++ ids })
    else none

-- What `stop` does after its first test, in order: it calls `tickle` so often, resumes the
-- scheduler's fiber or not, and joins threads.
pub record Stop : Type 0 where
  pub tickles : ℕ
  pub resumes : Bool
  pub joined : List ℤ
  pub after : Crew

-- `stop`: `is_current` tells whether the calling thread's scheduler is this one. The workers run
-- before the last block, which takes the threads; they leave `c.threads` as it is.
unfoldable pub stop : Bool → Crew → Option Stop
stop is_current c =
    let marked = record c { scheduler = mark_stopping c.scheduler } in
    let extra = if c.has_scheduler_fiber then 1 else 0 in
    let done : Stop = record { tickles = 0; resumes = false; joined = []; after = c } in
    let full : Stop = record {
      tickles = c.thread_count + extra;
      resumes = c.has_scheduler_fiber;
      joined = c.threads;
      after = record marked { threads = [] };
    } in
    let right_thread = if c.use_caller then is_current else not is_current in
    if stopping c.scheduler then some done else if right_thread then some full else none
