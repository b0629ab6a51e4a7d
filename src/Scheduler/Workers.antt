-- ===== src/Scheduler/Workers.antt =====
-- src/scheduler.cpp, `run`, as seen from the queue's lock: workers take tasks, run them and come
-- back, in any order. `running` holds the tasks in the hands of the workers.
use coroutine_lib.Prelude.{
  ℕ, ◌+◌, ◌≡◌, refl, ap, subst, ◌∙◌, inl, inr, Bool, true, false, ◌||◌, ◌&&◌, Option, some, List,
  [], ◌∷◌, ◌++◌, arith, is_some, length, length-append, All, All-append, All-append_right,
  All-remove, Bool-cases, ◌↔◌, nil_of_length, nil_of_is_empty,
}
use coroutine_lib.Prelude.Int.{ℤ}
use coroutine_lib.Fiber.{State}
use coroutine_lib.Scheduler.{Scheduler, ScheduleTask, ScheduleOptions}
use coroutine_lib.Scheduler.Queue.{schedule_ex}
use coroutine_lib.Scheduler.Pick.{pick_cases}
use coroutine_lib.Scheduler.Run.{
  begin_task, end_task, after_fiber, requeue, demote, stopping, mark_stopping, is_mlfq, is_ready,
}

pub record System : Type 0 where
  pub scheduler : Scheduler
  pub running : List ScheduleTask

-- A task holds a fiber or a callback: the third branch of `run` is for workers without a task.
abbrev pub is_runnable : ScheduleTask → Bool
is_runnable t = is_some t.fiber || is_some t.cb

pub data Step (a : System) : System → Type 0 where
  submit :
      (fiber cb : Option ℕ) (options : ScheduleOptions)
      → Step a (record a { scheduler = (schedule_ex fiber cb options a.scheduler).0 })
  start :
      (thread_id : ℤ) (t : ScheduleTask)
      → (begin_task thread_id a.scheduler).out_task ≡ some t
      → Step a
          (record { scheduler = (begin_task thread_id a.scheduler).after; running = t ∷ a.running })
  -- `resume` came back, and left the fiber in some state.
  fiber_back :
      (pre : List ScheduleTask) (t : ScheduleTask) (post : List ScheduleTask) (state : State)
      → is_some t.fiber ≡ true
      → a.running ≡ pre ++ t ∷ post
      → Step a (record { scheduler = after_fiber state t a.scheduler; running = pre ++ post })
  -- The same for a callback, which never goes back to the queue.
  callback_back :
      (pre : List ScheduleTask) (t : ScheduleTask) (post : List ScheduleTask)
      → is_some t.fiber ≡ false
      → a.running ≡ pre ++ t ∷ post
      → Step a (record { scheduler = end_task a.scheduler; running = pre ++ post })
  stop : Step a (record a { scheduler = mark_stopping a.scheduler })

pub data Reach (a : System) : System → Type 0 where
  here : Reach a a
  next : {b c : System} → Reach a b → Step b c → Reach a c

abbrev pub Runnable : List ScheduleTask → Type 0
Runnable = All (λ t. is_runnable t ≡ true)

snoc-Runnable :
    (ts : List ScheduleTask) (t : ScheduleTask)
    → Runnable ts
    → is_runnable t ≡ true
    → Runnable (ts ++ t ∷ [])
snoc-Runnable ts t h e = All-append _ ts _ h (e, tt)

schedule_ex_count :
    (fiber cb : Option ℕ) (options : ScheduleOptions) (s : Scheduler)
    → Runnable s.tasks
    → ((schedule_ex fiber cb options s).0.active_thread_count ≡ s.active_thread_count)
      × Runnable (schedule_ex fiber cb options s).0.tasks
unfolding schedule_ex
schedule_ex_count fiber cb options s h = elim (Bool-cases (is_some fiber || is_some cb)) [
  | inl e ↦ rw e (refl, snoc-Runnable s.tasks _ h e)
  | inr e ↦ rw e (refl, h)
]

demote_fiber : (s : Scheduler) (t : ScheduleTask) → (demote s.mlfq_config t).fiber ≡ t.fiber
unfolding demote
demote_fiber s t = ground arith

requeue_count :
    (state : State) (t : ScheduleTask) (s : Scheduler)
    → is_some t.fiber ≡ true
    → Runnable s.tasks
    → ((requeue state t s).0.active_thread_count ≡ s.active_thread_count)
      × Runnable (requeue state t s).0.tasks
unfolding requeue
requeue_count state t s f h = elim (Bool-cases (is_mlfq s && is_some t.fiber && is_ready state)) [
  | inl e ↦ rw e (refl, snoc-Runnable s.tasks _ h (ground (arith, demote_fiber s t)))
  | inr e ↦ rw e (refl, h)
]

-- The head of the loop: the counter rises exactly with a task in hand.
begin_count :
    (thread_id : ℤ) (s : Scheduler) (t : ScheduleTask)
    → (begin_task thread_id s).out_task ≡ some t
    → Runnable s.tasks
    → ((begin_task thread_id s).after.active_thread_count ≡ s.active_thread_count + 1)
      × Runnable (begin_task thread_id s).after.tasks
      × (is_runnable t ≡ true)
unfolding begin_task
begin_count thread_id s t e h = elim (pick_cases thread_id s) [
  | inl (out, left) ↦ cc
  | inr (u, pre, post, out, split, left) ↦
      let kept = All-remove (λ t. is_runnable t ≡ true) pre u post (subst Runnable split h) in
      let taken =
        All-append_right (λ t. is_runnable t ≡ true) pre (u ∷ post) (subst Runnable split h) in
      let same : u ≡ t = ground arith in
      rw (out, left, begin_task) (refl, kept, subst (λ x. is_runnable x ≡ true) same (taken.0))
]

pub record IsCounted (a : System) : Type 0 where
  pub counted : a.scheduler.active_thread_count ≡ length a.running
  pub queued : Runnable a.scheduler.tasks
  pub held : Runnable a.running

module _ {a : System} (v : IsCounted a) where
  open v use {counted, queued, held}

  -- One task leaves the hands of the workers, and the counter falls with it.
  hand_back :
      (pre : List ScheduleTask) (t : ScheduleTask) (post : List ScheduleTask) (s : Scheduler)
      → a.running ≡ pre ++ t ∷ post
      → s.active_thread_count ≡ a.scheduler.active_thread_count
      → Runnable s.tasks
      → IsCounted (record { scheduler = end_task s; running = pre ++ post })
  unfolding end_task
  hand_back pre t post s e same q = record {
    counted =
        omega
          (arith, ap length e, counted, same, length-append pre (t ∷ post), length-append pre post);
    queued = q;
    held = All-remove _ pre t post (subst Runnable e held);
  }

  Step-IsCounted : {b : System} → Step a b → IsCounted b
  unfolding after_fiber mark_stopping
  Step-IsCounted (submit fiber cb options) =
      let (same, q) = schedule_ex_count fiber cb options a.scheduler queued in
      record { counted = same ∙ counted; queued = q; held = held }
  Step-IsCounted (start thread_id t e) =
      let (more, q, r) = begin_count thread_id a.scheduler t e queued in
      record { counted = omega (arith, more, counted); queued = q; held = (r, held) }
  Step-IsCounted (fiber_back pre t post state f e) =
      let (same, q) = requeue_count state t a.scheduler f queued in
      hand_back pre t post (requeue state t a.scheduler).0 e same q
  Step-IsCounted (callback_back pre t post f e) = hand_back pre t post a.scheduler e refl queued
  Step-IsCounted stop = ground arith

Reach-IsCounted : {a b : System} → IsCounted a → Reach a b → IsCounted b
Reach-IsCounted v here = v
Reach-IsCounted v (next r st) = Step-IsCounted (Reach-IsCounted v r) st

-- In every state that workers and callers reach from one whose count of active threads is that of
-- the tasks in hand, `stopping` answers true exactly when the scheduler is marked, no task is
-- queued and no worker has a task in hand: no work is lost.
pub stopping_quiescent :
    {a b : System}
    → IsCounted a
    → Reach a b
    → (stopping b.scheduler ≡ true)
      ↔ ((b.scheduler.stop_flag ≡ true) × (b.scheduler.tasks ≡ []) × (b.running ≡ []))
unfolding stopping
stopping_quiescent {b} v r =
    let counted = (Reach-IsCounted v r).counted in
    (
      (λ h. ground (arith, nil_of_length b.running, nil_of_is_empty b.scheduler.tasks)),
      (λ h. ground arith),
    )
