-- ===== src/IoManager/Wakes.antt =====
-- src/iomanager.cpp: what `addEvent`, `delEvent` and `cancelEvent` do to a waiter.
use coroutine_lib.Prelude.{
  ℕ, ◌*◌, ◌/◌, ◌≤◌, ◌<◌, Bool, true, false, Option, none, some, ◌∷◌, if◌then◌else◌, is_some,
  get_elem?, ltb, ◌≡◌, ◌≢◌, inl, refl, sym, ap, subst, ◌∙◌, arith, ==_self,
}
use coroutine_lib.Prelude.Int.{pos}
use coroutine_lib.Fiber.{State}
use coroutine_lib.Scheduler.{Scheduler}
use coroutine_lib.Scheduler.Queue.{schedule_ex}
use coroutine_lib.IoManager.{
  Event, none_event, read_event, write_event, EventContext, FdContext, EpollCall, IoManager, has,
  with_event, store, Kernel, increment, decrement,
}
use coroutine_lib.IoManager.Contexts.{
  any_thread, get_event_context, put_event_context, schedule_lock, context_resize,
}
use coroutine_lib.IoManager.Operations.{
  Outcome, addition_call, removal_call, add_event_locked, del_event_locked, cancel_event_locked,
  grow, at_context, cancel_event, del_event,
}
use coroutine_lib.IoManager.Pending.{
  IsConsistent, Sound, taken, waiting, if_both, trigger_event-Sound, schedule_lock_frame,
}
use coroutine_lib.IoManager.Keeps.{may_wait, waiter_of, clear_of-Holds}
use coroutine_lib.IoManager.Resize.{resize_addresses_past}

-- The context after an event was added to it.
abbrev pub joined : Event → EventContext → FdContext → FdContext
joined event w c = record (put_event_context event w c) { events = with_event event c.events }

-- `addEvent` for an event that is not registered, when the kernel accepts the change.
pub add_event_locked_adds :
    (kernel : Kernel) (fd p : ℕ) (event : Event) (cb : Option ℕ) (current : ℕ) (state : State)
    (m : IoManager)
    → Sound (m.context_at p)
    → ((c : EpollCall) → kernel c ≡ true)
    → event ≢ none_event
    → may_wait cb state ≡ true
    → has event (m.context_at p).events ≡ false
    → add_event_locked kernel fd event cb (current, state) p m
      ≡ some (
        record m {
          pending_event_count = increment m.pending_event_count;
          context_at = store m.context_at p (joined event (waiter_of cb current) (m.context_at p));
          epoll_calls = addition_call fd event (m.context_at p) ∷ m.epoll_calls;
        },
        true,
      )
unfolding add_event_locked get_event_context put_event_context
add_event_locked_adds kernel fd p none_event cb current state m s k ne run free = absurd (ne refl)
add_event_locked_adds kernel fd p read_event cb current state m s k ne run free =
    let clear = clear_of-Holds (m.context_at p).events.reads (m.context_at p).read s.0 free in
    rw (k (addition_call fd read_event (m.context_at p)), free) (if_both _ _ clear run)
add_event_locked_adds kernel fd p write_event cb current state m s k ne run free =
    let clear = clear_of-Holds (m.context_at p).events.writes (m.context_at p).write s.1 free in
    rw (k (addition_call fd write_event (m.context_at p)), free) (if_both _ _ clear run)

-- `delEvent` and `cancelEvent` for a registered event, when the kernel accepts the change.
pub cancel_event_locked_cancels :
    (kernel : Kernel) (fd p : ℕ) (event : Event) (m : IoManager)
    → Sound (m.context_at p)
    → ((c : EpollCall) → kernel c ≡ true)
    → has event (m.context_at p).events ≡ true
    → (after : IoManager) × (cancel_event_locked kernel fd event p m ≡ some (after, true))
      × (after.scheduler
          ≡ (schedule_ex
              (if is_some (waiting event (m.context_at p)).cb
                then none
                else (waiting event (m.context_at p)).fiber)
              (waiting event (m.context_at p)).cb
              any_thread
              m.scheduler).0)
      × (after.context_at ≡ store m.context_at p (taken event (m.context_at p)))
      × (after.pending_event_count ≡ decrement m.pending_event_count)
unfolding cancel_event_locked
cancel_event_locked_cancels kernel fd p event m s k e =
    let c = waiting event (m.context_at p) in
    let call = removal_call fd event (m.context_at p) in
    let m1 : IoManager = record m {
      pending_event_count = decrement m.pending_event_count;
      epoll_calls = call ∷ m.epoll_calls;
    } in
    let (_, _, _, count, _, tasks) =
      schedule_lock_frame (if is_some c.cb then none else c.fiber) c.cb m1 in
    (
      record (schedule_lock (if is_some c.cb then none else c.fiber) c.cb m1) {
        context_at = store m.context_at p (taken event (m.context_at p));
      },
      rw (cancel_event_locked, k call, e, trigger_event-Sound event p m1 s e) refl,
      tasks,
      refl,
      count,
    )

pub store_self : (at : ℕ → FdContext) (p : ℕ) (c : FdContext) → store at p c p ≡ c
store_self at p c = rw (==_self p) refl

joined-Sound :
    (event : Event) (w : EventContext) (c : FdContext)
    → w.scheduler ≡ true
    → Sound c
    → Sound (joined event w c)
unfolding put_event_context
joined-Sound none_event w c h s = s
joined-Sound read_event w c h s = ((h, inl refl), s.1)
joined-Sound write_event w c h s = (s.0, (h, inl refl))

pub has-joined :
    (event : Event) (w : EventContext) (c : FdContext)
    → event ≢ none_event
    → has event (joined event w c).events ≡ true
has-joined none_event w c ne = absurd (ne refl)
has-joined read_event w c ne = refl
has-joined write_event w c ne = refl

pub waiting-joined :
    (event : Event) (w : EventContext) (c : FdContext)
    → event ≢ none_event
    → waiting event (joined event w c) ≡ w
unfolding put_event_context
waiting-joined none_event w c ne = absurd (ne refl)
waiting-joined read_event w c ne = refl
waiting-joined write_event w c ne = refl

taken-joined :
    (event : Event) (w : EventContext) (c : FdContext)
    → has event c.events ≡ false
    → (taken event (joined event w c)).events ≡ c.events
taken-joined none_event w c h = refl
taken-joined read_event w c h = ground arith
taken-joined write_event w c h = ground arith

-- The scheduler once a waiter is scheduled.
abbrev woken_by : EventContext → IoManager → Scheduler
woken_by e m = (schedule_ex (if is_some e.cb then none else e.fiber) e.cb any_thread m.scheduler).0

twice {ℓ} :
    {A : Type ℓ} (b : Bool) (o : Option A)
    → (if b then none else (if b then none else o)) ≡ (if b then none else o)
twice true o = refl
twice false o = refl

-- In a consistent state, a callback, or the calling fiber, which runs, that `addEvent` makes wait
-- for READ or WRITE, not yet registered, is scheduled by `cancelEvent` afterwards, when the kernel
-- accepts both changes: the calls return true, the task of just that waiter joins
-- the end of the queue, and the events of the descriptor and the count are those of before.
pub add_event_cancelled :
    (kernel : Kernel) (fd p : ℕ) (event : Event) (cb : Option ℕ) (current : ℕ) (state : State)
    (m : IoManager)
    → IsConsistent m
    → p < m.fresh
    → ((c : EpollCall) → kernel c ≡ true)
    → event ≢ none_event
    → may_wait cb state ≡ true
    → has event (m.context_at p).events ≡ false
    → (added cancelled : IoManager) × (add_event_locked kernel fd event cb (current, state) p m
        ≡ some (added, true))
      × (cancel_event_locked kernel fd event p added ≡ some (cancelled, true))
      × (cancelled.scheduler
          ≡ (schedule_ex (if is_some cb then none else some current) cb any_thread m.scheduler).0)
      × ((cancelled.context_at p).events ≡ (m.context_at p).events)
      × (cancelled.pending_event_count ≡ m.pending_event_count)
add_event_cancelled kernel fd p event cb current state m v h k ne run free =
    let w = waiter_of cb current in
    let c = m.context_at p in
    let call = addition_call fd event c in
    let m1 : IoManager = record m {
      pending_event_count = increment m.pending_event_count;
      context_at = store m.context_at p (joined event w c);
      epoll_calls = call ∷ m.epoll_calls;
    } in
    let at : joined event w c ≡ m1.context_at p =
      sym (store_self m.context_at p (joined event w c)) in
    let (m2, ends, tasks, at2, count) =
      cancel_event_locked_cancels kernel fd p event m1
        (subst Sound at (joined-Sound event w c refl (v.sound p h))) k
        (subst (λ x. has event x.events ≡ true) at (has-joined event w c ne)) in
    (
      m1,
      m2,
      add_event_locked_adds kernel fd p event cb current state m (v.sound p h) k ne run free,
      ends,
      tasks
          ∙ ap (λ x. woken_by x m) (ap (waiting event) (sym at) ∙ waiting-joined event w c ne)
          ∙ ap (λ f. (schedule_ex f cb any_thread m.scheduler).0)
              (twice (is_some cb) (some current)),
      ap (λ f. (f p).events) at2
          ∙ ap (λ x. x.events) (store_self m1.context_at p _)
          ∙ ap (λ x. (taken event x).events) (sym at)
          ∙ taken-joined event w c free,
      omega (arith, count, v.counted),
    )

at_missing :
    (fd : ℕ) (body : ℕ → ℕ → IoManager → Outcome) (m : IoManager)
    → get_elem? m.fd_contexts fd ≡ none
    → at_context (pos fd) body m ≡ some (m, false)
unfolding at_context
at_missing fd body m e = rw (at_context, e) refl

-- `addEvent` looks for the context under one lock and makes the vector longer under another. If
-- another thread has made it longer than that in between, the vector gets shorter: a descriptor
-- past its new end loses its context, so that `cancelEvent` and `delEvent` return false, whatever
-- is registered there, and that event stays pending.
pub grow_loses :
    (kernel : Kernel) (fd fd' p : ℕ) (event : Event) (m : IoManager)
    → get_elem? m.fd_contexts fd' ≡ some p
    → p < m.fresh
    → has event (m.context_at p).events ≡ true
    → fd * 3 / 2 ≤ fd'
    → (cancel_event kernel (pos fd') event (grow fd m) ≡ some (grow fd m, false))
      × (del_event kernel (pos fd') event (grow fd m) ≡ some (grow fd m, false))
      × (has event ((grow fd m).context_at p).events ≡ true)
      × ((grow fd m).pending_event_count ≡ m.pending_event_count)
unfolding cancel_event del_event grow context_resize
grow_loses kernel fd fd' p event m e h r l =
    let lost = resize_addresses_past (fd * 3 / 2) m.fresh fd' m.fd_contexts l in
    let old : ltb p m.fresh ≡ true = ground arith in
    (
      at_missing fd' (λ n. cancel_event_locked kernel n event) (grow fd m) lost,
      at_missing fd' (λ n. del_event_locked kernel n event) (grow fd m) lost,
      rw old r,
      refl,
    )
