-- ===== src/IoManager/Pending.antt =====
-- src/iomanager.cpp: the count of pending events, and what the contexts hold.
use coroutine_lib.Prelude.{
  ℕ, zero, suc, ◌+◌, ◌%◌, ◌≤◌, ◌<◌, Bool, true, ◌&&◌, Option, none, some, if◌then◌else◌, is_some,
  ◌≡◌, ◌⊎◌, inr, refl, sym, ap, subst, ◌∙◌, arith, u64_mod, length, All,
}
use native.Mathlib.Decide.{ℕ_discrete}
use coroutine_lib.Scheduler.Queue.{schedule_ex}
use coroutine_lib.IoManager.{
  Event, none_event, read_event, write_event, Events, EventContext, FdContext, IoManager, has,
  without_event, store, increment, decrement,
}
use coroutine_lib.IoManager.Contexts.{
  any_thread, empty_context, get_event_context, put_event_context, reset_event_context, tickle,
  schedule_lock, trigger_event,
}

abbrev pub bit : Bool → ℕ
bit b = if b then 1 else 0

abbrev pub count_of : Events → ℕ
count_of e = bit e.reads + bit e.writes

-- How many events the contexts below an address have registered.
abbrev pub registered : (ℕ → FdContext) → ℕ → ℕ
registered at zero = 0
registered at (suc n) = count_of (at n).events + registered at n

-- Without an event an `EventContext` is empty, with it its scheduler is set.
abbrev pub Holds : Bool → EventContext → Type 0
Holds b e = (e.scheduler ≡ b) × ((b ≡ true) ⊎ ((e.fiber ≡ none) × (e.cb ≡ none)))

abbrev pub Sound : FdContext → Type 0
Sound c = Holds c.events.reads c.read × Holds c.events.writes c.write

pub record IsConsistent (m : IoManager) : Type 0 where
  pub counted : m.pending_event_count ≡ registered m.context_at m.fresh % u64_mod
  pub valid : All (λ p. p < m.fresh) m.fd_contexts
  pub sound : (p : ℕ) → p < m.fresh → Sound (m.context_at p)
  pub room : 32 ≤ length m.fd_contexts  -- the constructor's size

registered-store_out :
    (at : ℕ → FdContext) (p n : ℕ) (c : FdContext)
    → n ≤ p
    → registered (store at p c) n ≡ registered at n
registered-store_out at p zero c h = refl
registered-store_out at p (suc n) c h = ground (arith, registered-store_out at p n c (omega arith))

-- A change of one context changes the number by as much.
pub registered-store :
    (at : ℕ → FdContext) (p n : ℕ) (c : FdContext)
    → p < n
    → registered (store at p c) n + count_of (at p).events ≡ registered at n + count_of c.events
registered-store at p zero c h = elim h [ ]
registered-store at p (suc n) c h = elim (ℕ_discrete p n) [
  | yes e ↦ ground (arith, registered-store_out at p n c (omega arith), ap at e)
  | no e ↦ ground (arith, registered-store at p n c (omega arith))
]

pub schedule_lock_frame :
    (fiber cb : Option ℕ) (m : IoManager)
    → ((schedule_lock fiber cb m).context_at ≡ m.context_at)
      × ((schedule_lock fiber cb m).fresh ≡ m.fresh)
      × ((schedule_lock fiber cb m).fd_contexts ≡ m.fd_contexts)
      × ((schedule_lock fiber cb m).pending_event_count ≡ m.pending_event_count)
      × ((schedule_lock fiber cb m).timers ≡ m.timers)
      × ((schedule_lock fiber cb m).scheduler ≡ (schedule_ex fiber cb any_thread m.scheduler).0)
unfolding schedule_lock tickle
schedule_lock_frame fiber cb m = ground arith

-- A context takes the place of another.
replaced :
    (m m' : IoManager) (p : ℕ) (c : FdContext)
    → IsConsistent m
    → p < m.fresh
    → Sound c
    → m'.context_at ≡ store m.context_at p c
    → m'.fresh ≡ m.fresh
    → m'.fd_contexts ≡ m.fd_contexts
    → m'.pending_event_count ≡ registered (store m.context_at p c) m.fresh % u64_mod
    → IsConsistent m'
replaced m m' p c v h s at n contexts count = record {
  counted = rw (at, n) count;
  valid = rw (contexts, n) v.valid;
  room = rw contexts v.room;
  sound = λ q k. subst (λ f. Sound (f q)) (sym at) (store-Sound q (subst (λ x. q < x) n k));
}
  where
    store-Sound : (q : ℕ) → q < m.fresh → Sound (store m.context_at p c q)
    store-Sound q k = elim (ℕ_discrete p q) [
      | yes e ↦ let here : c ≡ store m.context_at p c q = ground arith in subst Sound here s
      | no e ↦
          let there : m.context_at q ≡ store m.context_at p c q = ground arith in
          subst Sound there (v.sound q k)
    ]

-- One event more is registered.
pub raised :
    (m m' : IoManager) (p : ℕ) (c : FdContext)
    → IsConsistent m
    → p < m.fresh
    → Sound c
    → m'.context_at ≡ store m.context_at p c
    → m'.fresh ≡ m.fresh
    → m'.fd_contexts ≡ m.fd_contexts
    → count_of c.events ≡ count_of (m.context_at p).events + 1
    → m'.pending_event_count ≡ increment m.pending_event_count
    → IsConsistent m'
raised m m' p c v h s at n contexts more count =
    replaced m m' p c v h s at n contexts
      (omega (arith, count, v.counted, more, registered-store m.context_at p m.fresh c h))

-- One event less is registered.
pub lowered :
    (m m' : IoManager) (p : ℕ) (c : FdContext)
    → IsConsistent m
    → p < m.fresh
    → Sound c
    → m'.context_at ≡ store m.context_at p c
    → m'.fresh ≡ m.fresh
    → m'.fd_contexts ≡ m.fd_contexts
    → count_of c.events + 1 ≡ count_of (m.context_at p).events
    → m'.pending_event_count ≡ decrement m.pending_event_count
    → IsConsistent m'
lowered m m' p c v h s at n contexts less count =
    replaced m m' p c v h s at n contexts
      (omega (arith, count, v.counted, less, registered-store m.context_at p m.fresh c h))

-- The context after an event was taken from it.
abbrev pub taken : Event → FdContext → FdContext
taken event c = record (reset_event_context event c) { events = without_event event c.events }

pub taken-Sound : (event : Event) (c : FdContext) → Sound c → Sound (taken event c)
unfolding reset_event_context put_event_context
taken-Sound none_event c s = s
taken-Sound read_event c s = ((refl, inr (refl, refl)), s.1)
taken-Sound write_event c s = (s.0, (refl, inr (refl, refl)))

pub taken_count :
    (event : Event) (c : FdContext)
    → has event c.events ≡ true
    → count_of (taken event c).events + 1 ≡ count_of c.events
taken_count none_event c h = cc
taken_count read_event c h = ground arith
taken_count write_event c h = ground arith

-- The waiter that an event of a context wakes.
abbrev pub waiting : Event → FdContext → EventContext
waiting none_event c = empty_context
waiting read_event c = c.read
waiting write_event c = c.write

pub if_both {ℓ} :
    {A : Type ℓ} {a b : Bool} (x y : A) → a ≡ true → b ≡ true → (if a && b then x else y) ≡ x
if_both x y h k = rw (h, k) refl

-- In a sound context a registered event is triggered without fail: its waiter is scheduled.
pub trigger_event-Sound :
    (event : Event) (p : ℕ) (m : IoManager)
    → Sound (m.context_at p)
    → has event (m.context_at p).events ≡ true
    → trigger_event event p m
      ≡ some
          (record (schedule_lock
            (if is_some (waiting event (m.context_at p)).cb
              then none
              else (waiting event (m.context_at p)).fiber)
            (waiting event (m.context_at p)).cb
            m) { context_at = store m.context_at p (taken event (m.context_at p)) })
unfolding trigger_event get_event_context
trigger_event-Sound none_event p m s h = cc
trigger_event-Sound read_event p m s h = if_both _ _ h (s.0.0 ∙ h)
trigger_event-Sound write_event p m s h = if_both _ _ h (s.1.0 ∙ h)
