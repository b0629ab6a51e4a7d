-- ===== src/IoManager/Keeps.antt =====
-- src/iomanager.cpp: each operation returns, and leaves a consistent state.
use coroutine_lib.Prelude.{
  ℕ, ◌<◌, Bool, true, false, ◌&&◌, ◌||◌, not, Option, none, some, if◌then◌else◌, is_some, ◌≡◌, ◌≢◌,
  inl, refl, sym, ap, subst, ◌∙◌, arith,
}
use coroutine_lib.Fiber.{State}
use coroutine_lib.IoManager.{
  Event, none_event, read_event, write_event, EventContext, IoManager, has, with_event,
  without_event, any_event, decrement, Kernel,
}
use coroutine_lib.IoManager.Contexts.{get_event_context, put_event_context, trigger_event}
use coroutine_lib.IoManager.Operations.{
  Outcome, epoll_ctl, is_running, is_clear, add_event_locked, del_event_locked, cancel_event_locked,
  removal_call, addition_call, clearing_call, cancel_all_locked,
}
use coroutine_lib.IoManager.Pending.{
  IsConsistent, Holds, raised, lowered, taken, taken-Sound, taken_count,
}
use coroutine_lib.IoManager.Trigger.{epoll_ctl_frame, trigger_event_frame, trigger_wanted-GoesOn}

-- The call returns, in a consistent state.
pub record Returns (o : Outcome) : Type 0 where
  pub after : IoManager
  pub answer : Bool
  pub ends : o ≡ some (after, answer)
  pub consistent : IsConsistent after

-- The same for code without a result.
pub record GoesOn (o : Option IoManager) : Type 0 where
  pub after : IoManager
  pub ends : o ≡ some after
  pub consistent : IsConsistent after

pub at_once : (m : IoManager) (b : Bool) → IsConsistent m → Returns (some (m, b))
at_once m b v = record { after = m; answer = b; ends = refl; consistent = v }

choose-Returns :
    (c : Bool) (x y : Outcome)
    → (c ≡ true → Returns x)
    → (c ≡ false → Returns y)
    → Returns (if c then x else y)
choose-Returns true x y f g = f refl
choose-Returns false x y f g = g refl

choose-GoesOn :
    (c : Bool) (x y : Option IoManager)
    → (c ≡ true → GoesOn x)
    → (c ≡ false → GoesOn y)
    → GoesOn (if c then x else y)
choose-GoesOn true x y f g = f refl
choose-GoesOn false x y f g = g refl

pub same-IsConsistent :
    (m m' : IoManager)
    → m'.context_at ≡ m.context_at
    → m'.fresh ≡ m.fresh
    → m'.fd_contexts ≡ m.fd_contexts
    → m'.pending_event_count ≡ m.pending_event_count
    → IsConsistent m
    → IsConsistent m'
same-IsConsistent m m' at n contexts count v = record {
  counted = rw (at, n, count) v.counted;
  valid = rw (contexts, n) v.valid;
  room = rw contexts v.room;
  sound = rw (at, n) v.sound;
}

answered :
    (o : Option IoManager) (w : IoManager)
    → o ≡ some w
    → IsConsistent w
    → Returns (elim o [ none ↦ none | some woken ↦ some (woken, true) ])
answered o w e v = rw e (at_once w true v)

passed : (c : Bool) (x y : Outcome) → c ≡ true → Returns x → Returns (if c then x else y)
passed c x y e r = rw e r

pub clear_of-Holds : (b : Bool) (e : EventContext) → Holds b e → b ≡ false → is_clear e ≡ true
clear_of-Holds b e h f = ground arith

-- A waiter may be set if there is a callback or the calling fiber runs.
abbrev pub may_wait : Option ℕ → State → Bool
may_wait cb state = is_some cb || is_running state

abbrev pub waiter_of : Option ℕ → ℕ → EventContext
waiter_of cb current = record {
  scheduler = true;
  fiber = if is_some cb then none else some current;
  cb = cb;
}

module _ (kernel : Kernel) (fd p : ℕ) (m : IoManager) (v : IsConsistent m) (h : p < m.fresh) where
  pub del_event_locked-Returns : (event : Event) → Returns (del_event_locked kernel fd event p m)
  unfolding del_event_locked
  del_event_locked-Returns event =
      let call = removal_call fd event (m.context_at p) in
      let (_, n, contexts, _) = epoll_ctl_frame kernel call m in
      choose-Returns (not (has event (m.context_at p).events)) _ _ (λ e. at_once m false v)
        (λ e.
          choose-Returns (not (epoll_ctl kernel call m).1) _ _ (λ k. at_once m false v)
            (λ k. at_once _ true (
              lowered m _ p (taken event (m.context_at p)) v h
                (taken-Sound event (m.context_at p) (v.sound p h)) refl n contexts
                (taken_count event (m.context_at p) (ground arith)) refl)))

  pub cancel_event_locked-Returns :
      (event : Event) → Returns (cancel_event_locked kernel fd event p m)
  unfolding cancel_event_locked
  cancel_event_locked-Returns event =
      let call = removal_call fd event (m.context_at p) in
      let (at, n, contexts, _) = epoll_ctl_frame kernel call m in
      let counted : IoManager = record (epoll_ctl kernel call m).0 {
        pending_event_count = decrement m.pending_event_count;
      } in
      choose-Returns (not (has event (m.context_at p).events)) _ _ (λ e. at_once m false v)
        (λ e.
          choose-Returns (not (epoll_ctl kernel call m).1) _ _ (λ k. at_once m false v)
            (λ k.
              let set : has event (m.context_at p).events ≡ true = ground arith in
              let (w, ends, at', n', contexts', count) =
                trigger_event_frame event p m counted at (v.sound p h) set in
              answered (trigger_event event p counted) w ends (
                lowered m w p (taken event (m.context_at p)) v h
                  (taken-Sound event (m.context_at p) (v.sound p h)) at' (n' ∙ n)
                  (contexts' ∙ contexts) (taken_count event (m.context_at p) set) count)))

  pub add_event_locked-Returns :
      (event : Event) (cb : Option ℕ) (current : ℕ) (state : State)
      → event ≢ none_event
      → may_wait cb state ≡ true
      → Returns (add_event_locked kernel fd event cb (current, state) p m)
  unfolding add_event_locked get_event_context put_event_context
  add_event_locked-Returns none_event cb current state ne run = absurd (ne refl)
  add_event_locked-Returns read_event cb current state ne run =
      let c = m.context_at p in
      let call = addition_call fd read_event c in
      let (_, n, contexts, _) = epoll_ctl_frame kernel call m in
      let (s, t) = v.sound p h in
      choose-Returns c.events.reads _ _ (λ e. at_once m false v)
        (λ e.
          choose-Returns (not (epoll_ctl kernel call m).1) _ _ (λ k. at_once m false v)
            (λ k.
              let clear = clear_of-Holds c.events.reads c.read s e in
              passed (is_clear c.read && may_wait cb state) _ _ (ground arith) (
                at_once _ true (
                  raised m _ p
                    (record c {
                      read = waiter_of cb current;
                      events = with_event read_event c.events;
                    })
                    v h ((refl, inl refl), t) refl n contexts (ground arith) refl))))
  add_event_locked-Returns write_event cb current state ne run =
      let c = m.context_at p in
      let call = addition_call fd write_event c in
      let (_, n, contexts, _) = epoll_ctl_frame kernel call m in
      let (s, t) = v.sound p h in
      choose-Returns c.events.writes _ _ (λ e. at_once m false v)
        (λ e.
          choose-Returns (not (epoll_ctl kernel call m).1) _ _ (λ k. at_once m false v)
            (λ k.
              let clear = clear_of-Holds c.events.writes c.write t e in
              passed (is_clear c.write && may_wait cb state) _ _ (ground arith) (
                at_once _ true (
                  raised m _ p
                    (record c {
                      write = waiter_of cb current;
                      events = with_event write_event c.events;
                    })
                    v h (s, (refl, inl refl)) refl n contexts (ground arith) refl))))

  pub cancel_all_locked-Returns : Returns (cancel_all_locked kernel fd p m)
  unfolding cancel_all_locked
  cancel_all_locked-Returns =
      let c = m.context_at p in
      let call = clearing_call fd in
      let (at, n, contexts, count) = epoll_ctl_frame kernel call m in
      let m' = (epoll_ctl kernel call m).0 in
      let v' = same-IsConsistent m m' at n contexts count v in
      choose-Returns (not (any_event c.events)) _ _ (λ e. at_once m false v)
        (λ e.
          choose-Returns (not (epoll_ctl kernel call m).1) _ _ (λ k. at_once m false v)
            (λ k.
              let (a, e1, v1, n1, at1) =
                trigger_wanted-GoesOn c.events.reads read_event p m' v'
                  (subst (λ f. p < f) (sym n) h) (ap (λ f. (f p).events.reads) (sym at)) in
              let (b, e2, v2, n2, at2) =
                trigger_wanted-GoesOn (a.context_at p).events.writes write_event p a v1
                  (subst (λ f. p < f) (sym (n1 ∙ n)) h) refl in
              let clear : any_event (b.context_at p).events ≡ false =
                ap any_event (at2 ∙ ap (without_event write_event) at1) in
              rw e1 (rw e2 (rw clear (at_once b true v2)))))
