-- ===== src/Scheduler/Threads.antt =====
-- src/scheduler.cpp: the threads from the constructor to `stop`.
use coroutine_lib.Prelude.{
  ℕ, ◌+◌, ◌-◌, ◌<◌, ◌≡◌, refl, Bool, true, false, not, none, some, List, [], ◌∷◌, ◌++◌, ◌==◌,
  if◌then◌else◌, length, arith,
}
use coroutine_lib.Prelude.Int.{ℤ, minus_one}
use coroutine_lib.Scheduler.{Scheduler}
use coroutine_lib.Scheduler.Run.{stopping, mark_stopping}
use coroutine_lib.Scheduler.Lifecycle.{Crew, new_crew, start, Stop, stop}

-- How a scheduler of some threads lives: the state when it is made, when it has started, and what
-- `stop` does.
pub record Lives (threads : ℕ) (use_caller : Bool) (caller : ℤ) (ids : List ℤ) (s : Scheduler)
    : Type 0 where
  pub made : Crew
  pub started : Crew
  pub stopped : Stop
  pub makes : new_crew threads use_caller caller false s ≡ some made
  pub starts : start ids made ≡ some started
  pub workers : length started.thread_ids ≡ threads
  pub stops : stop use_caller started ≡ some stopped
  pub wakes : stopped.tickles ≡ threads
  pub joins : stopped.joined ≡ ids
  pub marks : stopped.after.scheduler.stop_flag ≡ true
  pub again : start ids stopped.after ≡ some stopped.after
  pub asserts : stop (not use_caller) started ≡ none

-- The crew with and without its threads.
abbrev crew : ℕ → Bool → ℤ → List ℤ → Scheduler → Crew
crew threads use_caller caller ids s = record {
  scheduler = s;
  use_caller = use_caller;
  thread_count = if use_caller then threads - 1 else threads;
  root_thread = if use_caller then caller else minus_one;
  thread_ids = (if use_caller then caller ∷ [] else []) ++ ids;
  threads = ids;
  has_scheduler_fiber = use_caller;
}

abbrev ending : ℕ → Bool → ℤ → List ℤ → Scheduler → Stop
ending threads use_caller caller ids s = record {
  tickles = (if use_caller then threads - 1 else threads) + (if use_caller then 1 else 0);
  resumes = use_caller;
  joined = ids;
  after = record (crew threads use_caller caller ids (record s { stop_flag = true })) {
    threads = [];
  };
}

-- A scheduler that is made with some threads, on a thread that has none, started with the threads
-- that the system gives it, and stopped: it has as many workers as were asked for, the calling
-- thread among them if that is to be used; `stop` wakes once for each of them, joins exactly the
-- threads that `start` made and leaves the scheduler marked, and a later `start` does nothing.
-- `stop` from a thread whose scheduler this is not, if the caller is used, or from one whose
-- scheduler this is, if it is not, fails an assertion.
pub new_crew-Lives :
    (threads : ℕ) (use_caller : Bool) (caller : ℤ) (ids : List ℤ) (s : Scheduler)
    → 0 < threads
    → s.stop_flag ≡ false
    → length ids ≡ (if use_caller then threads - 1 else threads)
    → Lives threads use_caller caller ids s
unfolding new_crew start stop stopping mark_stopping
new_crew-Lives threads true caller ids s h k l =
    let some_threads : (threads == 0) ≡ false = ground (arith, h) in
    let all : (length ids == (threads - 1)) ≡ true = ground (arith, l) in
    record {
      made = crew threads true caller [] s;
      started = crew threads true caller ids s;
      stopped = ending threads true caller ids s;
      makes = simp (new_crew, some_threads);
      starts = simp (start, k, all);
      workers = omega (arith, h, l);
      stops = simp (stop, stopping, mark_stopping, k);
      wakes = omega (arith, h);
      joins = refl;
      marks = refl;
      again = refl;
      asserts = simp (stop, stopping, k);
    }
new_crew-Lives threads false caller ids s h k l =
    let some_threads : (threads == 0) ≡ false = ground (arith, h) in
    let all : (length ids == threads) ≡ true = ground (arith, l) in
    record {
      made = crew threads false caller [] s;
      started = crew threads false caller ids s;
      stopped = ending threads false caller ids s;
      makes = simp (new_crew, some_threads);
      starts = simp (start, k, all);
      workers = l;
      stops = simp (stop, stopping, mark_stopping, k);
      wakes = omega arith;
      joins = refl;
      marks = refl;
      again = refl;
      asserts = simp (stop, stopping, k);
    }
