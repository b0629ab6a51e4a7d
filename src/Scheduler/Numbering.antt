-- ===== src/Scheduler/Numbering.antt =====
-- src/scheduler.cpp: sequence numbers grow along the queue and stay below the next one.
use coroutine_lib.Prelude.{
  ℕ, ◌+◌, ◌%◌, ◌≤◌, ◌<◌, ◌≡◌, refl, sym, subst, ◌≢◌, ◌⊎◌, inl, inr, true, false, ◌||◌, ◌&&◌, Option,
  some, List, [], ◌∷◌, ◌++◌, arith, u64_mod, is_some, All, All-append, All-append_left,
  All-append_right, All-mono, All-remove, All-zip, Bool-cases,
}
use coroutine_lib.Prelude.Int.{ℤ}
use coroutine_lib.Fiber.{State}
use coroutine_lib.Scheduler.{Scheduler, ScheduleTask, ScheduleOptions, fifo, match_thread, better}
use coroutine_lib.Scheduler.Order.{better_connex}
use coroutine_lib.Scheduler.Choice.{beats}
use coroutine_lib.Scheduler.Queue.{pick_next_task_locked, schedule_ex}
use coroutine_lib.Scheduler.Pick.{pick-Leads, pick-First, pick_cases}
use coroutine_lib.Scheduler.Run.{requeue, is_mlfq, is_ready}

-- Each number is at least `n` and above those before it.
abbrev pub Increasing : ℕ → List ScheduleTask → Type 0
Increasing n [] = Unit {0}
Increasing n (t ∷ ts) = (n ≤ t.sequence) × Increasing (t.sequence + 1) ts

abbrev pub Below : ℕ → List ScheduleTask → Type 0
Below n = All (λ t. t.sequence < n)

pub record IsNumbered (s : Scheduler) : Type 0 where
  pub increasing : Increasing 0 s.tasks
  pub below : Below s.task_sequence s.tasks

Increasing-mono : (m n : ℕ) (ts : List ScheduleTask) → m ≤ n → Increasing n ts → Increasing m ts
Increasing-mono m n [] h i = tt
Increasing-mono m n (t ∷ ts) h i = (omega arith, i.1)

Increasing-snoc :
    (n m : ℕ) (ts : List ScheduleTask) (t : ScheduleTask)
    → n ≤ m
    → t.sequence ≡ m
    → Below m ts
    → Increasing n ts
    → Increasing n (ts ++ t ∷ [])
Increasing-snoc n m [] t h e b i = (omega arith, tt)
Increasing-snoc n m (x ∷ xs) t h e b i =
    (i.0, Increasing-snoc (x.sequence + 1) m xs t (omega arith) e b.1 i.1)

Increasing-remove :
    (n : ℕ) (pre : List ScheduleTask) (t : ScheduleTask) (post : List ScheduleTask)
    → Increasing n (pre ++ t ∷ post)
    → Increasing n (pre ++ post)
Increasing-remove n [] t post i = Increasing-mono n (t.sequence + 1) post (omega arith) i.1
Increasing-remove n (x ∷ pre) t post i = (i.0, Increasing-remove (x.sequence + 1) pre t post i.1)

Below-remove :
    (n : ℕ) (pre : List ScheduleTask) (t : ScheduleTask) (post : List ScheduleTask)
    → Below n (pre ++ t ∷ post)
    → Below n (pre ++ post)
Below-remove n pre t post b =
    All-append _ pre post (All-append_left _ pre (t ∷ post) b)
      (All-append_right _ pre (t ∷ post) b).1

Increasing-le : (n : ℕ) (ts : List ScheduleTask) → Increasing n ts → All (λ u. n ≤ u.sequence) ts
Increasing-le n [] i = tt
Increasing-le n (t ∷ ts) i =
    (i.0, All-mono _ _ ts (λ u h. omega arith) (Increasing-le (t.sequence + 1) ts i.1))

-- The task at the split has a number of its own.
Increasing-others :
    (n : ℕ) (pre : List ScheduleTask) (t : ScheduleTask) (post : List ScheduleTask)
    → Increasing n (pre ++ t ∷ post)
    → All (λ u. t.sequence ≢ u.sequence) (pre ++ post)
Increasing-others n [] t post i =
    All-mono _ _ post (λ u h. omega arith) (Increasing-le (t.sequence + 1) post i.1)
Increasing-others n (x ∷ pre) t post i =
    let after = Increasing-le (x.sequence + 1) (pre ++ t ∷ post) i.1 in
    let later = (All-append_right _ pre (t ∷ post) after).0 in
    (omega arith, Increasing-others (x.sequence + 1) pre t post i.1)

-- A task with the next number goes to the end of the queue.
append-IsNumbered :
    (s : Scheduler) (t : ScheduleTask)
    → t.sequence ≡ s.task_sequence
    → s.task_sequence + 1 < u64_mod
    → IsNumbered s
    → IsNumbered
        (record s { tasks = s.tasks ++ t ∷ []; task_sequence = (s.task_sequence + 1) % u64_mod })
append-IsNumbered s t e room v = record {
  increasing = Increasing-snoc 0 s.task_sequence s.tasks t (omega arith) e v.below v.increasing;
  below =
      let next : (s.task_sequence + 1) % u64_mod ≡ s.task_sequence + 1 = omega arith in
      rw next (
        All-append _ s.tasks _ (All-mono _ _ s.tasks (λ u h. omega arith) v.below)
          (omega arith, tt));
}

-- `scheduleEx` keeps the sequence numbers growing along the queue and below the next number, as
-- long as the 64-bit counter does not wrap.
pub schedule_ex-IsNumbered :
    (fiber cb : Option ℕ) (options : ScheduleOptions) (s : Scheduler)
    → s.task_sequence + 1 < u64_mod
    → IsNumbered s
    → IsNumbered (schedule_ex fiber cb options s).0
unfolding schedule_ex
schedule_ex-IsNumbered fiber cb options s room v = elim (Bool-cases (is_some fiber || is_some cb)) [
  | inl e ↦ rw e (append-IsNumbered s _ refl room v)
  | inr e ↦ rw e v
]

-- When `run` is done with a fiber, queueing it again keeps the sequence numbers growing along the
-- queue and below the next number, as long as the 64-bit counter does not wrap.
pub requeue-IsNumbered :
    (state : State) (task : ScheduleTask) (s : Scheduler)
    → s.task_sequence + 1 < u64_mod
    → IsNumbered s
    → IsNumbered (requeue state task s).0
unfolding requeue
requeue-IsNumbered state task s room v =
    elim (Bool-cases (is_mlfq s && is_some task.fiber && is_ready state)) [
      | inl e ↦ rw e (append-IsNumbered s _ refl room v)
      | inr e ↦ rw e v
    ]

remove-IsNumbered :
    (s : Scheduler) (pre : List ScheduleTask) (t : ScheduleTask) (post : List ScheduleTask)
    → s.tasks ≡ pre ++ t ∷ post
    → IsNumbered s
    → IsNumbered (record s { tasks = pre ++ post })
remove-IsNumbered s pre t post e v = record {
  increasing = Increasing-remove 0 pre t post (subst (Increasing 0) e v.increasing);
  below = Below-remove s.task_sequence pre t post (subst (Below s.task_sequence) e v.below);
}

-- Under every policy `pickNextTaskLocked` keeps the sequence numbers growing along the queue and
-- below the next number.
pub pick-IsNumbered :
    (thread_id : ℤ) (s : Scheduler)
    → IsNumbered s
    → IsNumbered (pick_next_task_locked thread_id s).after
pick-IsNumbered thread_id s v = elim (pick_cases thread_id s) [
  | inl (_, e) ↦ subst IsNumbered (sym e) v
  | inr (t, pre, post, _, e, left) ↦
      subst IsNumbered (sym left) (remove-IsNumbered s pre t post e v)
]

-- `u` cannot run on the thread, or comes strictly after `t` in the order of the policy.
abbrev pub Yields : Scheduler → ℤ → ScheduleTask → ScheduleTask → Type 0
Yields s thread_id t u = (match_thread thread_id u ≡ false) ⊎ (better s t u ≡ true)

-- Outside FIFO, with sequence numbers that grow along the queue, the choice is unique: the task
-- taken comes strictly before every task left in the queue that may run on the thread.
pub pick_strict :
    (thread_id : ℤ) (s : Scheduler) (t : ScheduleTask)
    → IsNumbered s
    → s.policy ≢ fifo
    → (pick_next_task_locked thread_id s).out_task ≡ some t
    → All (Yields s thread_id t) (pick_next_task_locked thread_id s).after.tasks
pick_strict thread_id s t v f e =
    let (l, left) = pick-Leads thread_id s t f e in
    let others = Increasing-others 0 l.pre t l.post (subst (Increasing 0) l.split v.increasing) in
    let unbeaten = subst (All (λ u. beats s thread_id t u ≡ false)) l.split l.unbeaten in
    subst (λ (after : Scheduler). All (Yields s thread_id t) after.tasks) (sym left)
      (All-zip (λ u. t.sequence ≢ u.sequence) (λ u. beats s thread_id t u ≡ false)
        (Yields s thread_id t) (l.pre ++ l.post)
        (λ u own kept. ground (arith, better_connex s u t f)) others
        (All-remove _ l.pre t l.post unbeaten))

Increasing-tail :
    (n : ℕ) (pre : List ScheduleTask) (t : ScheduleTask) (post : List ScheduleTask)
    → Increasing n (pre ++ t ∷ post)
    → Increasing (t.sequence + 1) post
Increasing-tail n [] t post i = i.1
Increasing-tail n (x ∷ pre) t post i = Increasing-tail (x.sequence + 1) pre t post i.1

-- `u` cannot run on the thread, or was queued after `t`.
abbrev pub Older : ℤ → ScheduleTask → ScheduleTask → Type 0
Older thread_id t u = (match_thread thread_id u ≡ false) ⊎ (t.sequence < u.sequence)

-- Under FIFO, with the queue numbered, the task taken has a smaller sequence number than every task
-- left that may run on the thread.
pub pick_oldest :
    (thread_id : ℤ) (s : Scheduler) (t : ScheduleTask)
    → IsNumbered s
    → s.policy ≡ fifo
    → (pick_next_task_locked thread_id s).out_task ≡ some t
    → All (Older thread_id t) (pick_next_task_locked thread_id s).after.tasks
pick_oldest thread_id s t v p e =
    let (f, left) = pick-First thread_id s t p e in
    let later = Increasing-tail 0 f.pre t f.post (subst (Increasing 0) f.split v.increasing) in
    let rest = Increasing-le (t.sequence + 1) f.post later in
    subst (λ (after : Scheduler). All (Older thread_id t) after.tasks) (sym left)
      (All-append (Older thread_id t) f.pre f.post
        (All-mono _ (Older thread_id t) f.pre (λ u h. inl h) f.foreign)
        (All-mono (λ u. t.sequence + 1 ≤ u.sequence) (Older thread_id t) f.post
          (λ u h. inr (omega arith)) rest))
