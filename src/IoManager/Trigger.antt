-- ===== src/IoManager/Trigger.antt =====
-- src/iomanager.cpp: `triggerEvent` in a consistent state, and `epoll_ctl`.
use coroutine_lib.Prelude.{
  ℕ, ◌<◌, Bool, true, false, none, some, ◌∷◌, if◌then◌else◌, is_some, ◌≡◌, refl, sym, ap, subst,
  arith,
}
use coroutine_lib.IoManager.{
  Event, none_event, read_event, write_event, Events, EpollCall, IoManager, has, without_event,
  store, decrement, Kernel,
}
use coroutine_lib.IoManager.Contexts.{trigger_event}
use coroutine_lib.IoManager.Operations.{epoll_ctl, trigger_counted}
use coroutine_lib.IoManager.Pending.{
  IsConsistent, Sound, lowered, taken, taken-Sound, taken_count, waiting, trigger_event-Sound,
  schedule_lock_frame,
}

-- A call of `epoll_ctl` changes nothing that counts.
pub epoll_ctl_frame :
    (kernel : Kernel) (call : EpollCall) (m : IoManager)
    → ((epoll_ctl kernel call m).0.context_at ≡ m.context_at)
      × ((epoll_ctl kernel call m).0.fresh ≡ m.fresh)
      × ((epoll_ctl kernel call m).0.fd_contexts ≡ m.fd_contexts)
      × ((epoll_ctl kernel call m).0.pending_event_count ≡ m.pending_event_count)
unfolding epoll_ctl
epoll_ctl_frame kernel call m = ground arith

-- What `triggerEvent` does to the contexts of a state with those of `m`.
pub trigger_event_frame :
    (event : Event) (p : ℕ) (m m1 : IoManager)
    → m1.context_at ≡ m.context_at
    → Sound (m.context_at p)
    → has event (m.context_at p).events ≡ true
    → (after : IoManager) × (trigger_event event p m1 ≡ some after)
      × (after.context_at ≡ store m.context_at p (taken event (m.context_at p)))
      × (after.fresh ≡ m1.fresh)
      × (after.fd_contexts ≡ m1.fd_contexts)
      × (after.pending_event_count ≡ m1.pending_event_count)
trigger_event_frame event p m m1 same s e =
    let s1 = subst (λ at. Sound (at p)) (sym same) s in
    let e1 = subst (λ at. has event (at p).events ≡ true) (sym same) e in
    let c = waiting event (m1.context_at p) in
    let (_, n, contexts, count, _, _) =
      schedule_lock_frame (if is_some c.cb then none else c.fiber) c.cb m1 in
    (
      _,
      trigger_event-Sound event p m1 s1 e1,
      ap (λ at. store at p (taken event (at p))) same,
      n,
      contexts,
      count,
    )

-- A triggered event, once it is counted.
pub trigger_counted-GoesOn :
    (event : Event) (p : ℕ) (m : IoManager)
    → IsConsistent m
    → p < m.fresh
    → has event (m.context_at p).events ≡ true
    → (after : IoManager) × (trigger_counted true event p m ≡ some after)
      × IsConsistent after
      × (after.fresh ≡ m.fresh)
      × (after.context_at ≡ store m.context_at p (taken event (m.context_at p)))
unfolding trigger_counted
trigger_counted-GoesOn event p m v h e =
    let (w, ends, at, n, contexts, count) = trigger_event_frame event p m m refl (v.sound p h) e in
    (
      record w { pending_event_count = decrement w.pending_event_count },
      rw ends refl,
      lowered m _ p (taken event (m.context_at p)) v h
          (taken-Sound event (m.context_at p) (v.sound p h)) at n contexts
          (taken_count event (m.context_at p) e) (ap decrement count),
      n,
      at,
    )

pub trigger_counted_not :
    (event : Event) (p : ℕ) (m : IoManager) → trigger_counted false event p m ≡ some m
unfolding trigger_counted
trigger_counted_not event p m = refl

without_event_not : (event : Event) (e : Events) → has event e ≡ false → e ≡ without_event event e
without_event_not none_event e h = refl
without_event_not read_event e h = ground arith
without_event_not write_event e h = ground arith

-- The same where the event is triggered if its bit is set.
pub trigger_wanted-GoesOn :
    (wanted : Bool) (event : Event) (p : ℕ) (m : IoManager)
    → IsConsistent m
    → p < m.fresh
    → wanted ≡ has event (m.context_at p).events
    → (after : IoManager) × (trigger_counted wanted event p m ≡ some after)
      × IsConsistent after
      × (after.fresh ≡ m.fresh)
      × ((after.context_at p).events ≡ without_event event (m.context_at p).events)
trigger_wanted-GoesOn true event p m v h e =
    let (w, ends, kept, n, at) = trigger_counted-GoesOn event p m v h (sym e) in
    (w, ends, kept, n, rw at (ground arith))
trigger_wanted-GoesOn false event p m v h e = (
  m,
  trigger_counted_not event p m,
  v,
  refl,
  without_event_not event (m.context_at p).events (sym e),
)

-- A call that the kernel accepts is only recorded.
pub accepts :
    (kernel : Kernel)
    → ((c : EpollCall) → kernel c ≡ true)
    → (call : EpollCall) (m : IoManager)
    → epoll_ctl kernel call m ≡ (record m { epoll_calls = call ∷ m.epoll_calls }, true)
unfolding epoll_ctl
accepts kernel k call m = rw (k call) refl
