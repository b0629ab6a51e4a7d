-- ===== src/Fiber/Transfer.antt =====
-- src/fiber.cpp: how control passes between the fibers of one thread.
-- A fiber is an address. `code` is the fiber whose code really runs, and `saved` tells for each
-- context whose code was saved in it last. A failed assertion is `none`.
use coroutine_lib.Prelude.{ℕ, Bool, true, false, ◌&&◌, not, Option, none, some, ◌==◌, if◌then◌else◌}
use coroutine_lib.Fiber.{State, ready, running, term}

pub record Fiber : Type 0 where
  pub state : State
  pub cb : Option ℕ
  pub parent : Option ℕ  -- a weak pointer
  pub return_to_parent : Bool
  pub run_in_scheduler : Bool
  pub use_shared_stack : Bool

-- The thread-local pointers, and the fibers that the thread works with.
pub record Thread : Type 0 where
  pub fibers : ℕ → Fiber
  pub alive : ℕ → Bool  -- whether the object has not been destroyed
  pub current : ℕ  -- `t_fiber`
  pub thread_fiber : ℕ
  pub scheduler_fiber : ℕ
  pub code : ℕ
  pub saved : ℕ → ℕ

abbrev pub put : (ℕ → Fiber) → ℕ → Fiber → ℕ → Fiber
put fibers f v g = if f == g then v else fibers g

-- `swapWithSanitizer`: the running code is saved in one context, and another one is loaded.
unfoldable pub swap : ℕ → ℕ → Thread → Thread
swap from to t = record t {
  saved = λ g. if from == g then t.code else t.saved g;
  code = if from == to then t.code else t.saved to;
}

-- Where a fiber goes that has no parent to return to.
abbrev pub home : Thread → Fiber → ℕ
home t v = if v.run_in_scheduler then t.scheduler_fiber else t.thread_fiber

abbrev pub is_ready : State → Bool
is_ready ready = true
is_ready _ = false

abbrev pub is_term : State → Bool
is_term term = true
is_term _ = false

-- `reset`, without the stack.
unfoldable pub reset : Option ℕ → Fiber → Option Fiber
reset cb v =
    if is_term v.state
    then some (record v { state = ready; cb = cb; parent = none; return_to_parent = false })
    else none

-- `resume`, up to the moment when the fiber runs.
unfoldable pub resume : ℕ → Thread → Option Thread
unfolding swap
resume f t =
    let v = t.fibers f in
    let t' = record t { fibers = put t.fibers f (record v { state = running }); current = f } in
    if is_ready v.state then some (swap (home t v) f t') else none

-- The codes that `call` returns.
pub data CallResult : Type 0 where
  call_ok call_err_not_ready call_err_self_call call_err_shared_nested_unsupported : CallResult

-- `call`, up to the moment when the fiber runs, with its result, which the caller sees at once in
-- case of an error and otherwise when control is back.
unfoldable pub call : ℕ → Thread → Thread × CallResult
unfolding swap
call f t =
    let v = t.fibers f in
    let called = record v { state = running; parent = some t.current; return_to_parent = true } in
    let t' = record t { fibers = put t.fibers f called; current = f } in
    if not (is_ready v.state)
    then (t, call_err_not_ready)
    else if t.current == f
    then (t, call_err_self_call)
    else if v.use_shared_stack && (t.fibers t.current).use_shared_stack
    then (t, call_err_shared_nested_unsupported)
    else (swap t.current f t', call_ok)

-- `lock` of the weak pointer to the parent.
unfoldable pub parent_of : Thread → Fiber → Option ℕ
parent_of t v = elim v.parent [ none ↦ none | some p ↦ if t.alive p then some p else none ]

-- The parent that `yield` gives control back to, by `back`.
unfoldable pub back_to : Thread → Fiber → Option ℕ
unfolding parent_of
back_to t v = if v.return_to_parent then parent_of t v else none

-- A fiber that stops is READY, unless it has ended.
unfoldable pub paused : Fiber → Fiber
paused v = if is_term v.state then v else record v { state = ready }

unfoldable pub apart : Fiber → Fiber
apart v = record v { parent = none; return_to_parent = false }

-- The switch from a fiber, which becomes `w`, to another.
abbrev pub leave : ℕ → Fiber → ℕ → Thread → Thread
leave x w y t = swap x y (record t { fibers = put t.fibers x w; current = y })

-- `yield` of the current fiber, with `back`.
unfoldable pub yield : Thread → Option Thread
unfolding back_to paused apart
yield t =
    let v = t.fibers t.current in
    if is_ready v.state then none else elim (back_to t v) [
      | some p ↦ some (leave t.current (apart (paused v)) p t)
      | none ↦ some (leave t.current (paused v) (home t v) t)
    ]

-- The end of `MainFunc`, once the callback has returned or thrown.
unfoldable pub finish : Thread → Option Thread
unfolding yield
finish t =
    let x = t.current in
    yield (record t { fibers = put t.fibers x (record (t.fibers x) { state = term; cb = none }) })
