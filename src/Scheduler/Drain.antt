-- ===== src/Scheduler/Drain.antt =====
-- src/scheduler.cpp, `run`: a worker of a scheduler that is stopped empties the queue and ends.
use coroutine_lib.Prelude.{
  ℕ, zero, suc, ◌+◌, ◌-◌, ◌≤◌, ◌≡◌, refl, sym, ap, subst, ◌∙◌, Bool, true, false, none, some, List,
  [], ◌∷◌, ◌++◌, is_empty, is_empty-append_cons, length, length-append, arith, All, All-remove,
  All-append_right, inl, inr,
}
use mathlib.Core.List.{Perm, perm_middle}
use mathlib.Core.List.Perm
use coroutine_lib.Prelude.Int.{ℤ}
use coroutine_lib.Scheduler.{Scheduler, ScheduleTask, match_thread}
use coroutine_lib.Scheduler.Queue.{pick_next_task_locked}
use coroutine_lib.Scheduler.Pick.{pick_cases}
use coroutine_lib.Scheduler.Run.{stopping}
use coroutine_lib.Scheduler.Workers.{is_runnable}
use coroutine_lib.Scheduler.Loop.{Effect, ran, idled, idle_body, run_idle, run_round, run_loop}
use coroutine_lib.Scheduler.Rounds.{
  IsQuiet, round_idles, without_task, round_runs, none_left, stops, IsDraining,
}

-- A worker that ran the tasks it found, and ended in a state in which the scheduler is stopping.
pub record Drains (fuel : ℕ) (effect : Effect) (thread_id : ℤ) (idle_ended : Bool) (s : Scheduler)
    : Type 0 where
  pub tasks : List ScheduleTask
  pub after : Scheduler
  pub ends_with : run_loop fuel effect thread_id idle_ended s ≡ some (tasks, after)
  pub all : Perm tasks s.tasks
  pub empty : after.tasks ≡ []
  pub stopped : stopping after ≡ true

pick_empty :
    (thread_id : ℤ) (s : Scheduler)
    → s.tasks ≡ []
    → ((pick_next_task_locked thread_id s).out_task ≡ none)
      × ((pick_next_task_locked thread_id s).after ≡ s)
pick_empty thread_id s nothing = elim (pick_cases thread_id s) [
  | inl h ↦ h
  | inr (t, pre, post, out, split, left) ↦
      let none_left : is_empty s.tasks ≡ true = rw nothing refl in
      let some_left : is_empty s.tasks ≡ false = rw split (is_empty-append_cons pre t post) in cc
]

ended-Drains :
    (fuel : ℕ) (effect : Effect) (thread_id : ℤ) (s : Scheduler)
    → IsDraining thread_id s
    → s.tasks ≡ []
    → Drains (suc fuel) effect thread_id true s
unfolding run_loop run_idle
ended-Drains fuel effect thread_id s d nothing =
    let (e, left) = pick_empty thread_id s nothing in
    record {
      tasks = [];
      after = s;
      ends_with = rw (run_loop, round_idles effect thread_id true s e left) refl;
      all = rw nothing Perm.rfl;
      empty = nothing;
      stopped = stops thread_id s d nothing;
    }

-- The scheduler after a round of the idle fiber.
abbrev rested : Scheduler → Scheduler
rested s = record s { idle_thread_count = s.idle_thread_count + 1 - 1 }

round_rests :
    (effect : Effect) (thread_id : ℤ) (s : Scheduler)
    → IsDraining thread_id s
    → s.tasks ≡ []
    → run_round effect thread_id false s ≡ idled true (rested s)
unfolding run_idle idle_body stopping
round_rests effect thread_id s d nothing =
    let (e, left) = pick_empty thread_id s nothing in
    round_idles effect thread_id false s e left
    ∙ ap (λ b. idled b (rested s)) (stops thread_id s d nothing)

-- The idle fiber ends in its first round, and the loop in the next.
idle-Drains :
    (fuel : ℕ) (effect : Effect) (thread_id : ℤ) (idle_ended : Bool) (s : Scheduler)
    → IsDraining thread_id s
    → s.tasks ≡ []
    → Drains (suc (suc fuel)) effect thread_id idle_ended s
unfolding run_loop
idle-Drains fuel effect thread_id true s d nothing =
    ended-Drains (suc fuel) effect thread_id s d nothing
idle-Drains fuel effect thread_id false s d nothing =
    let later =
      ended-Drains fuel effect thread_id (rested s)
        (record { marked = d.marked; inactive = d.inactive; eligible = d.eligible }) nothing in
    record {
      tasks = later.tasks;
      after = later.after;
      ends_with = rw (run_loop, round_rests effect thread_id s d nothing) later.ends_with;
      all = later.all;
      empty = later.empty;
      stopped = later.stopped;
    }

next-Drains :
    (fuel : ℕ) (effect : Effect) (thread_id : ℤ) (idle_ended : Bool) (s s' : Scheduler)
    (t : ScheduleTask) (pre post : List ScheduleTask)
    → run_round effect thread_id idle_ended s ≡ ran t s'
    → s.tasks ≡ pre ++ t ∷ post
    → s'.tasks ≡ pre ++ post
    → Drains fuel effect thread_id idle_ended s'
    → Drains (suc fuel) effect thread_id idle_ended s
unfolding run_loop
next-Drains fuel effect thread_id idle_ended s s' t pre post e split rest d = record {
  tasks = t ∷ d.tasks;
  after = d.after;
  ends_with = rw (run_loop, e, d.ends_with) refl;
  all =
      subst (λ l. Perm (t ∷ d.tasks) l) (sym split)
        (Perm.trans (Perm.cons t (subst (Perm d.tasks) rest d.all))
          (Perm.symm (perm_middle pre post)));
  empty = d.empty;
  stopped = d.stopped;
}

-- Let the scheduler be marked as stopped, with no task in hand, and every task of its queue hold a
-- fiber or a callback, be free to run on the thread, and run to its end without a change of the
-- scheduler. With two rounds more than there are tasks, the loop of a worker ends: it has run just
-- the tasks of the queue, each as often as it stood there, in an order that the policy chooses,
-- the queue is empty and the scheduler is stopping.
pub run_loop-Drains :
    (fuel : ℕ) (effect : Effect) (thread_id : ℤ) (idle_ended : Bool) (s : Scheduler)
    → IsQuiet effect
    → IsDraining thread_id s
    → length s.tasks + 2 ≤ fuel
    → Drains fuel effect thread_id idle_ended s
run_loop-Drains zero effect thread_id idle_ended s quiet d f = absurd (omega (arith, f))
run_loop-Drains (suc zero) effect thread_id idle_ended s quiet d f = absurd (omega (arith, f))
run_loop-Drains (suc (suc fuel)) effect thread_id idle_ended s quiet d f =
    elim (pick_cases thread_id s) [
      | inl (e, left) ↦ idle-Drains fuel effect thread_id idle_ended s d (none_left thread_id s d e)
      | inr (t, pre, post, e, split, left) ↦
          let fits =
            subst (All (λ u. (match_thread thread_id u ≡ true) × (is_runnable u ≡ true))) split
              d.eligible in
          let (_, runs) = (All-append_right _ pre (t ∷ post) fits).0 in
          let long = ap length split ∙ length-append pre (t ∷ post) in
          let rest : IsDraining thread_id (without_task s (pre ++ post)) = record {
            marked = d.marked;
            inactive = ground (arith, d.inactive);
            eligible = All-remove _ pre t post fits;
          } in
          next-Drains (suc fuel) effect thread_id idle_ended s (without_task s (pre ++ post)) t pre
            post (round_runs effect thread_id idle_ended s t (pre ++ post) quiet runs e left) split
            refl
            (run_loop-Drains (suc fuel) effect thread_id idle_ended (without_task s (pre ++ post))
              quiet rest (omega (arith, f, long, length-append pre post)))
    ]
