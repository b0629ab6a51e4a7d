-- ===== src/IoManager/Operations.antt =====
-- src/iomanager.cpp: `addEvent`, `delEvent`, `cancelEvent` and `cancelAll`.
-- The result is the state after the call and what it returns. `addEvent` looks its context up
-- under one lock, makes room under another and goes on under the context's own: these are three
-- definitions, since other threads may come between.
use coroutine_lib.Prelude.{
  ℕ, ◌*◌, ◌/◌, Bool, true, false, ◌&&◌, ◌||◌, not, Option, none, some, ◌∷◌, if◌then◌else◌, is_some,
  get_elem?,
}
use coroutine_lib.Prelude.Int.{ℤ, pos, negsuc}
use coroutine_lib.Fiber.{State, running}
use coroutine_lib.IoManager.{
  Event, read_event, write_event, EventContext, FdContext, ctl_add, ctl_mod, ctl_del, EpollCall,
  IoManager, no_events, has, with_event, without_event, any_event, store, increment, decrement,
  Kernel,
}
use coroutine_lib.IoManager.Contexts.{
  get_event_context, put_event_context, reset_event_context, trigger_event, context_resize,
}

abbrev pub Outcome : Type 0
Outcome = Option (IoManager × Bool)

-- `epoll_ctl`: a call that fails leaves no trace but its result.
unfoldable pub epoll_ctl : Kernel → EpollCall → IoManager → IoManager × Bool
epoll_ctl kernel call m =
    if kernel call then (record m { epoll_calls = call ∷ m.epoll_calls }, true) else (m, false)

abbrev pub is_running : State → Bool
is_running running = true
is_running _ = false

-- Whether `events` holds neither a scheduler nor a fiber nor a callback.
abbrev pub is_clear : EventContext → Bool
is_clear e = not e.scheduler && not (is_some e.fiber) && not (is_some e.cb)

-- The call that adds an event to those that `epoll` watches.
abbrev pub addition_call : ℕ → Event → FdContext → EpollCall
addition_call fd event c = record {
  op = if any_event c.events then ctl_mod else ctl_add;
  fd = fd;
  events = with_event event c.events;
}

-- `addEvent` from the lock of the context on. The calling fiber, in some state, is the one that
-- waits if there is no callback.
unfoldable pub add_event_locked :
    Kernel → ℕ → Event → Option ℕ → ℕ × State → ℕ → IoManager → Outcome
unfolding epoll_ctl get_event_context put_event_context
add_event_locked kernel fd event cb (current, state) p m =
    let c = m.context_at p in
    let events = with_event event c.events in
    let (m', ok) = epoll_ctl kernel (addition_call fd event c) m in
    let fiber = if is_some cb then none else some current in
    let waiter : EventContext = record { scheduler = true; fiber = fiber; cb = cb } in
    let c' = record (put_event_context event waiter c) { events = events } in
    let added = record m' {
      pending_event_count = increment m.pending_event_count;
      context_at = store m.context_at p c';
    } in
    if has event c.events
    then some (m, false)
    else if not ok
    then some (m, false)
    else elim (get_event_context event c) [
      | none ↦ none
      | some e ↦ if is_clear e && (is_some cb || is_running state) then some (added, true) else none
    ]

-- The branch of `addEvent` that makes the vector larger.
unfoldable pub grow : ℕ → IoManager → IoManager
grow fd m = context_resize (fd * 3 / 2) m

-- `addEvent`
unfoldable pub add_event : Kernel → ℤ → Event → Option ℕ → ℕ × State → IoManager → Outcome
add_event kernel (negsuc n) event cb caller m = some (m, false)
add_event kernel (pos fd) event cb caller m =
    let m' = grow fd m in
    elim (get_elem? m.fd_contexts fd) [
      | some p ↦ add_event_locked kernel fd event cb caller p m
      | none ↦ elim (get_elem? m'.fd_contexts fd) [
        | some p ↦ add_event_locked kernel fd event cb caller p m'
        | none ↦ none
      ]
    ]

-- The call that takes an event from those that `epoll` watches.
abbrev pub removal_call : ℕ → Event → FdContext → EpollCall
removal_call fd event c =
    let new_events = without_event event c.events in
    record { op = if any_event new_events then ctl_mod else ctl_del; fd = fd; events = new_events }

-- `delEvent` from the lock of the context on.
unfoldable pub del_event_locked : Kernel → ℕ → Event → ℕ → IoManager → Outcome
unfolding epoll_ctl get_event_context reset_event_context
del_event_locked kernel fd event p m =
    let c = m.context_at p in
    let (m', ok) = epoll_ctl kernel (removal_call fd event c) m in
    let c' = record (reset_event_context event c) { events = without_event event c.events } in
    if not (has event c.events)
    then some (m, false)
    else if not ok
    then some (m, false)
    else some (
      record m' {
        pending_event_count = decrement m.pending_event_count;
        context_at = store m.context_at p c';
      },
      true,
    )

-- `cancelEvent` from the lock of the context on.
unfoldable pub cancel_event_locked : Kernel → ℕ → Event → ℕ → IoManager → Outcome
unfolding epoll_ctl
cancel_event_locked kernel fd event p m =
    let c = m.context_at p in
    let (m', ok) = epoll_ctl kernel (removal_call fd event c) m in
    let counted = record m' { pending_event_count = decrement m.pending_event_count } in
    if not (has event c.events)
    then some (m, false)
    else if not ok
    then some (m, false)
    else elim (trigger_event event p counted) [ none ↦ none | some woken ↦ some (woken, true) ]

-- Trigger an event and count it, as `cancelAll` and `idle` do for each bit that is set.
unfoldable pub trigger_counted : Bool → Event → ℕ → IoManager → Option IoManager
trigger_counted wanted event p m =
    if wanted
    then elim (trigger_event event p m) [
      | none ↦ none
      | some m' ↦ some (record m' { pending_event_count = decrement m'.pending_event_count })
    ]
    else some m

abbrev pub clearing_call : ℕ → EpollCall
clearing_call fd = record { op = ctl_del; fd = fd; events = no_events }

-- `cancelAll` from the lock of the context on, with its last assertion.
unfoldable pub cancel_all_locked : Kernel → ℕ → ℕ → IoManager → Outcome
unfolding epoll_ctl trigger_counted
cancel_all_locked kernel fd p m =
    let c = m.context_at p in
    let (m', ok) = epoll_ctl kernel (clearing_call fd) m in
    if not (any_event c.events)
    then some (m, false)
    else if not ok
    then some (m, false)
    else elim (trigger_counted c.events.reads read_event p m') [
      | none ↦ none
      | some a ↦ elim (trigger_counted (a.context_at p).events.writes write_event p a) [
        | none ↦ none
        | some b ↦ if any_event (b.context_at p).events then none else some (b, true)
      ]
    ]

-- How `delEvent`, `cancelEvent` and `cancelAll` begin. They do not test for a negative descriptor:
-- the vector is then read out of bounds.
unfoldable pub at_context : ℤ → (ℕ → ℕ → IoManager → Outcome) → IoManager → Outcome
at_context (negsuc n) body m = none
at_context (pos fd) body m = elim (get_elem? m.fd_contexts fd) [
  | some p ↦ body fd p m
  | none ↦ some (m, false)
]

unfoldable pub del_event : Kernel → ℤ → Event → IoManager → Outcome
unfolding at_context
del_event kernel fd event = at_context fd (λ n. del_event_locked kernel n event)

unfoldable pub cancel_event : Kernel → ℤ → Event → IoManager → Outcome
unfolding at_context
cancel_event kernel fd event = at_context fd (λ n. cancel_event_locked kernel n event)

unfoldable pub cancel_all : Kernel → ℤ → IoManager → Outcome
unfolding at_context
cancel_all kernel fd = at_context fd (λ n. cancel_all_locked kernel n)
