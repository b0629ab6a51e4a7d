-- ===== src/IoManager/Calls.antt =====
-- src/iomanager.cpp: sequences of calls of the I/O manager.
use coroutine_lib.Prelude.{
  ℕ, ◌*◌, ◌/◌, ◌<◌, Bool, true, false, Option, none, some, List, [], ◌∷◌, get_elem?, ◌≡◌, ◌≢◌, inl,
  inr, refl, arith, Option-cases, All,
}
use coroutine_lib.Prelude.Int.{ℤ, pos, negsuc}
use coroutine_lib.Scheduler.{Scheduler}
use coroutine_lib.Timer.{TimerManager}
use coroutine_lib.Fiber.{State}
use coroutine_lib.IoManager.{Event, none_event, FdContext, IoManager, Kernel}
use coroutine_lib.IoManager.Contexts.{new_io_manager}
use coroutine_lib.IoManager.Operations.{
  Outcome, grow, add_event, at_context, del_event, cancel_event, cancel_all,
}
use coroutine_lib.IoManager.Pending.{IsConsistent}
use coroutine_lib.IoManager.Keeps.{
  Returns, at_once, may_wait, add_event_locked-Returns, del_event_locked-Returns,
  cancel_event_locked-Returns, cancel_all_locked-Returns,
}
use coroutine_lib.IoManager.Resize.{
  get_elem?-All, get_elem?_past, grow_finds, context_resize-IsConsistent,
  new_io_manager-IsConsistent,
}

-- The calls of the interface, as data.
pub data Call : Type 0 where
  add : ℤ → Event → Option ℕ → ℕ × State → Call
  del : ℤ → Event → Call
  cancel : ℤ → Event → Call
  cancel_both : ℤ → Call

abbrev pub run_call : Kernel → Call → IoManager → Outcome
run_call kernel (add fd event cb caller) = add_event kernel fd event cb caller
run_call kernel (del fd event) = del_event kernel fd event
run_call kernel (cancel fd event) = cancel_event kernel fd event
run_call kernel (cancel_both fd) = cancel_all kernel fd

abbrev pub is_nat : ℤ → Bool
is_nat (pos n) = true
is_nat (negsuc n) = false

-- What a caller has to respect: to wait for READ or WRITE, with a callback or from a running
-- fiber, and to give the other calls no negative descriptor.
abbrev pub Proper : Call → Type 0
Proper (add fd event cb caller) = (event ≢ none_event) × (may_wait cb caller.1 ≡ true)
Proper (del fd event) = is_nat fd ≡ true
Proper (cancel fd event) = is_nat fd ≡ true
Proper (cancel_both fd) = is_nat fd ≡ true

pub at_context-Returns :
    (fd : ℤ) (body : ℕ → ℕ → IoManager → Outcome) (m : IoManager)
    → is_nat fd ≡ true
    → IsConsistent m
    → ((n p : ℕ) → p < m.fresh → Returns (body n p m))
    → Returns (at_context fd body m)
unfolding at_context
at_context-Returns (negsuc n) body m h v f = cc
at_context-Returns (pos n) body m h v f = elim (Option-cases (get_elem? m.fd_contexts n)) [
  | inl e ↦ rw (at_context, e) (at_once m false v)
  | inr (p, e) ↦
      rw (at_context, e) (f n p (get_elem?-All (λ p. p < m.fresh) m.fd_contexts n p e v.valid))
]

add_event-Returns :
    (kernel : Kernel) (fd : ℤ) (event : Event) (cb : Option ℕ) (caller : ℕ × State) (m : IoManager)
    → Proper (add fd event cb caller)
    → IsConsistent m
    → Returns (add_event kernel fd event cb caller m)
unfolding add_event grow
add_event-Returns kernel (negsuc n) event cb caller m h v = at_once m false v
add_event-Returns kernel (pos n) event cb (current, state) m h v =
    elim (Option-cases (get_elem? m.fd_contexts n)) [
      | inr (p, e) ↦
          rw (add_event, e)
            (add_event_locked-Returns kernel n p m v
              (get_elem?-All (λ p. p < m.fresh) m.fd_contexts n p e v.valid) event cb current state
              h.0 h.1)
      | inl e ↦
          let v' =
            context_resize-IsConsistent (n * 3 / 2) m
              (omega (arith, v.room, get_elem?_past m.fd_contexts n e)) v in
          let (p, e') = grow_finds n m v.room e in
          let valid =
            get_elem?-All (λ p. p < (grow n m).fresh) (grow n m).fd_contexts n p e' v'.valid in
          rw (add_event, e, e')
            (add_event_locked-Returns kernel n p (grow n m) v' valid event cb current state h.0 h.1)
    ]

call-Returns :
    (kernel : Kernel) (c : Call) (m : IoManager)
    → Proper c
    → IsConsistent m
    → Returns (run_call kernel c m)
unfolding del_event cancel_event cancel_all
call-Returns kernel (add fd event cb caller) m h v =
    add_event-Returns kernel fd event cb caller m h v
call-Returns kernel (del fd event) m h v =
    at_context-Returns fd _ m h v (λ n p k. del_event_locked-Returns kernel n p m v k event)
call-Returns kernel (cancel fd event) m h v =
    at_context-Returns fd _ m h v (λ n p k. cancel_event_locked-Returns kernel n p m v k event)
call-Returns kernel (cancel_both fd) m h v =
    at_context-Returns fd _ m h v (λ n p k. cancel_all_locked-Returns kernel n p m v k)

-- Calls one after the other, each with what the kernel answers then, and their results.
abbrev pub run_calls : List (Kernel × Call) → IoManager → Option (IoManager × List Bool)
run_calls [] m = some (m, [])
run_calls ((kernel, c) ∷ cs) m = elim (run_call kernel c m) [
  | none ↦ none
  | some (m', b) ↦ elim (run_calls cs m') [ none ↦ none | some (m'', bs) ↦ some (m'', b ∷ bs) ]
]

run_calls_return :
    (cs : List (Kernel × Call)) (m : IoManager)
    → All (λ c. Proper c.1) cs
    → IsConsistent m
    → (after : IoManager) × (answers : List Bool) × (run_calls cs m ≡ some (after, answers))
      × IsConsistent after
run_calls_return [] m h v = (m, [], refl, v)
run_calls_return ((kernel, c) ∷ cs) m h v =
    let r = call-Returns kernel c m h.0 v in
    let (after, answers, ends, kept) = run_calls_return cs r.after h.1 r.consistent in
    (after, r.answer ∷ answers, rw (run_calls, r.ends, ends) refl, kept)

-- Whatever the kernel answers, proper calls on a new manager return: no assertion fails, and no
-- memory is touched out of bounds. Then `m_pendingEventCount` is the number of registered events,
-- modulo 2^64, each registered event has its scheduler set, and the context of an event that is
-- not registered is empty.
pub calls_counted :
    (memory : ℕ → FdContext) (s : Scheduler) (t : TimerManager) (cs : List (Kernel × Call))
    → All (λ c. Proper c.1) cs
    → (after : IoManager) × (answers : List Bool) × (run_calls cs (new_io_manager memory s t)
        ≡ some (after, answers))
      × IsConsistent after
calls_counted memory s t cs h =
    run_calls_return cs (new_io_manager memory s t) h (new_io_manager-IsConsistent memory s t)
