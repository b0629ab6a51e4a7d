-- ===== src/Fiber/Return.antt =====
-- src/fiber.cpp: the fibers of a thread, one switch after the other.
use coroutine_lib.Prelude.{
  ℕ, true, false, none, some, List, ◌∷◌, ◌==◌, if◌then◌else◌, ◌≡◌, ◌≢◌, refl, sym, ap, subst, arith,
  ==_self,
}
use coroutine_lib.Fiber.{State, ready, running, term}
use coroutine_lib.Fiber.Transfer.{
  Fiber, Thread, put, home, is_ready, resume, call_ok, call, yield, finish,
}
use coroutine_lib.Fiber.Chain.{Goes, IsChain, destroyed-IsChain}
use coroutine_lib.Fiber.Switch.{resumed, called, waited, someone_waits, stopped_by}

-- Control passes on, and fibers come and go. A fiber is resumed by the one to which it goes when it
-- stops, as the scheduler does; the thread's own fiber does not yield.
pub data Step (a : Thread) : Thread → Type 0 where
  resumes :
      (f : ℕ) (b : Thread)
      → a.alive f ≡ true
      → a.current ≡ home a (a.fibers f)
      → resume f a ≡ some b
      → Step a b
  calls : (f : ℕ) (b : Thread) → a.alive f ≡ true → call f a ≡ (b, call_ok) → Step a b
  yields : (b : Thread) → a.current ≢ a.thread_fiber → yield a ≡ some b → Step a b
  finishes : (b : Thread) → a.current ≢ a.thread_fiber → finish a ≡ some b → Step a b
  destroyed :
      (f : ℕ)
      → (a.fibers f).state ≢ running
      → Step a (record a { alive = λ g. if f == g then false else a.alive g })

pub data Reach (a : Thread) : Thread → Type 0 where
  here : Reach a a
  next : {b c : Thread} → Reach a b → Step b c → Reach a c

-- The chains before and after a step: one fiber joins, one leaves, or it stays.
pub data Moves (chain : List ℕ) : List ℕ → Type 0 where
  joins : (f : ℕ) → Moves chain (f ∷ chain)
  leaves : (f : ℕ) (others : List ℕ) → chain ≡ f ∷ others → Moves chain others
  stays : Moves chain chain

running_unready : (s : State) → s ≡ running → is_ready s ≡ false
running_unready ready e = cc
running_unready running e = refl
running_unready term e = refl

-- Each step from a state with a chain of waiting fibers leads to one with a chain, and moves it by
-- one fiber at most. A chain goes from the current fiber, whose code is the one that runs, to the
-- thread's own; its fibers are exactly those that are RUNNING, each stands in it once, is alive
-- and goes to the next when it stops. A step puts a fiber on top, takes the top off, or leaves the
-- chain alone.
pub step-Moves :
    (a b : Thread) (chain : List ℕ)
    → IsChain a chain
    → Step a b
    → (after : List ℕ) × IsChain b after × Moves chain after
unfolding finish
step-Moves a b chain v (resumes f _ living at e) =
    (f ∷ chain, resumed a b chain f v living at e, joins f)
step-Moves a b chain v (calls f _ living e) = (f ∷ chain, called a b chain f v living e, joins f)
step-Moves a b chain v (yields _ n e) = elim (someone_waits a chain v n) [
  | waited y r same ↦
      let w = subst (IsChain a) same v in
      (
        y ∷ r,
        stopped_by a b a.fibers y r w (λ g k. refl)
            (running_unready (a.fibers a.current).state
              (w.runs a.current (ground (arith, ==_self a.current))))
            w.linked.0 e,
        leaves a.current (y ∷ r) same,
      )
]
step-Moves a b chain v (finishes _ n e) = elim (someone_waits a chain v n) [
  | waited y r same ↦
      let w = subst (IsChain a) same v in
      let ended : Fiber = record (a.fibers a.current) { state = term; cb = none } in
      let fs = put a.fibers a.current ended in
      let new : fs a.current ≡ ended = ground arith in
      (
        y ∷ r,
        stopped_by a b fs y r w (λ g k. ground arith) (ap (λ z. is_ready z.state) new)
            (subst (λ z. Goes a z y) (sym new) w.linked.0) e,
        leaves a.current (y ∷ r) same,
      )
]
step-Moves a _ chain v (destroyed f stopped) = (chain, destroyed-IsChain a chain f v stopped, stays)

-- Control always goes back to where it came from: every state that is reached from one with a chain
-- has a chain, so that the code that runs is that of the current fiber, and when a fiber other than
-- the thread's own stops, one that is alive and waits gets control.
pub control_returns :
    {a b : Thread} {chain : List ℕ}
    → IsChain a chain
    → Reach a b
    → (after : List ℕ) × IsChain b after
control_returns {chain = chain} v here = (chain, v)
control_returns v (next {b} {c} r st) =
    let (before, w) = control_returns v r in
    let (after, u, m) = step-Moves b c before w st in (after, u)
