-- ===== src/IoManager/Reports.antt =====
-- src/iomanager.cpp, `idle`: the handling of what `epoll_wait` reports.
use coroutine_lib.Prelude.{
  ℕ, ◌<◌, Bool, true, false, Option, none, some, ◌∷◌, if◌then◌else◌, ◌≡◌, inl, inr, refl, sym, ap,
  subst, ◌∙◌, arith, Bool-cases,
}
use coroutine_lib.IoManager.{
  Event, none_event, read_event, write_event, Events, EpollCall, IoManager, has, without_event,
  Kernel,
}
use coroutine_lib.IoManager.Contexts.{trigger_event, get_event_context}
use coroutine_lib.IoManager.Operations.{Outcome, trigger_counted, del_event_locked, removal_call}
use coroutine_lib.IoManager.Idle.{Report, real_events, meets, rest_call, handle_event}
use coroutine_lib.IoManager.Pending.{IsConsistent}
use coroutine_lib.IoManager.Trigger.{trigger_counted-GoesOn, trigger_counted_not, accepts}
use coroutine_lib.IoManager.Keeps.{del_event_locked-Returns, same-IsConsistent}

-- The handling goes on, in a consistent state, and leaves the context these events.
pub record Handles (p : ℕ) (left : Events) (o : Option IoManager) : Type 0 where
  pub after : IoManager
  pub ends : o ≡ some after
  pub consistent : IsConsistent after
  pub events : (after.context_at p).events ≡ left

-- An event is triggered only if it is registered.
asked :
    (wanted : Bool) (event : Event) (p : ℕ) (m : IoManager)
    → IsConsistent m
    → p < m.fresh
    → (wanted ≡ true → has event (m.context_at p).events ≡ true)
    → (after : IoManager) × (trigger_counted wanted event p m ≡ some after)
      × IsConsistent after
      × (after.fresh ≡ m.fresh)
      × ((after.context_at p).events ≡ (
          if wanted then without_event event (m.context_at p).events else (m.context_at p).events))
asked true event p m v h e =
    let (w, ends, kept, n, at) = trigger_counted-GoesOn event p m v h (e refl) in
    (w, ends, kept, n, rw at (ground arith))
asked false event p m v h e = (m, trigger_counted_not event p m, v, refl, refl)

-- Every event that occurred is registered.
abbrev pub Within : Events → Events → Type 0
Within real events =
    (real.reads ≡ true → events.reads ≡ true) × (real.writes ≡ true → events.writes ≡ true)

abbrev unless_asked : Bool → Event → Events → Events
unless_asked wanted event events = if wanted then without_event event events else events

still_asked :
    (wanted : Bool) (events : Events)
    → (unless_asked wanted read_event events).writes ≡ events.writes
still_asked true events = refl
still_asked false events = refl

trigger_event_unregistered :
    (event : Event) (p : ℕ) (m : IoManager)
    → has event (m.context_at p).events ≡ false
    → trigger_event event p m ≡ none
unfolding trigger_event get_event_context
trigger_event_unregistered none_event p m e = refl
trigger_event_unregistered read_event p m e = rw e refl
trigger_event_unregistered write_event p m e = rw e refl

trigger_counted_unregistered :
    (event : Event) (p : ℕ) (m : IoManager)
    → has event (m.context_at p).events ≡ false
    → trigger_counted true event p m ≡ none
unfolding trigger_counted
trigger_counted_unregistered event p m e = rw (trigger_event_unregistered event p m e) refl

-- What an outcome holds.
abbrev state_of : IoManager → Outcome → IoManager
state_of m none = m
state_of m (some (after, b)) = after

abbrev answer_of : Outcome → Bool
answer_of none = false
answer_of (some (after, b)) = b

-- `delEvent`, when it returns true, has taken the bit away.
del_event_locked_deleted :
    (kernel : Kernel) (fd p : ℕ) (event : Event) (m after : IoManager)
    → del_event_locked kernel fd event p m ≡ some (after, true)
    → ((after.context_at p).events ≡ without_event event (m.context_at p).events)
      × (after.fresh ≡ m.fresh)
unfolding del_event_locked
del_event_locked_deleted kernel fd p event m after d =
    let call = removal_call fd event (m.context_at p) in
    let answer = ap answer_of d in
    let seen = sym (ap (λ o. ((state_of m o).context_at p).events) d) in
    let size = sym (ap (λ o. (state_of m o).fresh) d) in
    elim (Bool-cases (has event (m.context_at p).events)) [
      | inr e ↦
          let no : answer_of (del_event_locked kernel fd event p m) ≡ false =
            rw (del_event_locked, e) refl in
          absurd (ground (arith, no, answer))
      | inl e ↦ elim (Bool-cases (kernel call)) [
        | inr k ↦
            let no : answer_of (del_event_locked kernel fd event p m) ≡ false =
              rw (del_event_locked, e, k) refl in
            absurd (ground (arith, no, answer))
        | inl k ↦ (
          seen ∙ rw (del_event_locked, k, e) (ground arith),
          size ∙ rw (del_event_locked, k, e) refl,
        )
      ]
    ]

real_reads : (r : Report) (e : Events) → r.epoll_in ≡ true → (real_events r e).reads ≡ true
unfolding real_events
real_reads r e h = rw h refl

real_writes : (r : Report) (e : Events) → r.epoll_out ≡ true → (real_events r e).writes ≡ true
unfolding real_events
real_writes r e h = rw h refl

meets_reads : (a b : Events) → a.reads ≡ true → b.reads ≡ true → meets a b ≡ true
meets_reads a b h k = rw (h, k) refl

-- A report of both events where only READ is registered.
handle_event_stale :
    (kernel : Kernel) (p : ℕ) (m : IoManager) (report : Report)
    → IsConsistent m
    → p < m.fresh
    → ((c : EpollCall) → kernel c ≡ true)
    → (m.context_at p).events ≡ record { reads = true; writes = false }
    → (report.epoll_in ≡ true) × (report.epoll_out ≡ true)
    → handle_event kernel p report m ≡ none
unfolding handle_event
handle_event_stale kernel p m report v h k e (in_set, out_set) =
    let events = (m.context_at p).events in
    let real = real_events report events in
    let call = rest_call (m.context_at p) real in
    let m' : IoManager = record m { epoll_calls = call ∷ m.epoll_calls } in
    let v' = same-IsConsistent m m' refl refl refl refl v in
    let reads : real.reads ≡ true = real_reads report events in_set in
    let (a, e1, v1, n1, at1) = asked real.reads read_event p m' v' h (λ j. ap (λ x. x.reads) e) in
    let gone : (a.context_at p).events.writes ≡ false =
      ap (λ x. x.writes) at1 ∙ still_asked real.reads events ∙ ap (λ x. x.writes) e in
    let e2 : trigger_counted real.writes write_event p a ≡ none =
      subst (λ w. trigger_counted w write_event p a ≡ none)
        (sym (real_writes report events out_set))
        (trigger_counted_unregistered write_event p a gone) in
    let met : meets events real ≡ true = meets_reads events real (ap (λ x. x.reads) e) reads in
    rw (handle_event, met, accepts kernel k call m, e1, e2) refl

-- In a consistent state both events of a context are registered, and `epoll` reports both. If
-- `delEvent` takes WRITE away in between, the handling of the report, whose change the kernel
-- accepts, fails the assertion of `triggerEvent`.
pub stale_report_aborts :
    (kernel kernel' : Kernel) (fd p : ℕ) (m after : IoManager)
    → IsConsistent m
    → p < m.fresh
    → ((c : EpollCall) → kernel c ≡ true)
    → (m.context_at p).events ≡ record { reads = true; writes = true }
    → del_event_locked kernel' fd write_event p m ≡ some (after, true)
    → (report : Report) → (report.epoll_in ≡ true) × (report.epoll_out ≡ true)
    → handle_event kernel p report after ≡ none
stale_report_aborts kernel kernel' fd p m after v h k both deleted report r =
    let d = del_event_locked-Returns kernel' fd p m v h write_event in
    let same : d.after ≡ after = ap (state_of m) (sym d.ends ∙ deleted) in
    let (left, size) = del_event_locked_deleted kernel' fd p write_event m after deleted in
    handle_event_stale kernel p after report (subst IsConsistent same d.consistent)
      (subst (λ n. p < n) (sym size) h) k (left ∙ ap (without_event write_event) both) r
