-- ===== src/Sync/WaitGroup.antt =====
-- include/mycoroutine/sync.h, `WaitGroup`: its locked blocks, and the fibers that run through them.
pub mod Wakeups
mod Examples
use coroutine_lib.Prelude.{
  ℕ, suc, ◌+◌, ◌-◌, Bool, true, false, Option, none, some, List, [], ◌∷◌, ◌++◌, ◌==◌, leb,
  if◌then◌else◌, ◌≡◌,
}
use coroutine_lib.Prelude.Int.{ℤ, pos, negsuc}
use coroutine_lib.Sync.{FiberWaiter, Flags, store_flag, pop_waiter_front}

-- `m_count` is an `int64_t` that an assertion keeps from being negative.
pub record WaitGroup : Type 0 where
  pub count : ℕ
  pub waiters : List FiberWaiter

unfoldable pub new_wait_group : WaitGroup
new_wait_group = record { count = 0; waiters = [] }

-- `m_count + delta`, where it is not negative.
unfoldable pub next_count : ℕ → ℤ → Option ℕ
next_count count (pos d) = some (count + d)
next_count count (negsuc d) = if leb count d then none else some (count - suc d)

-- The locked block of `add`, with the waiters to wake: all of them, once the count is 0. `none` is
-- a failed assertion.
unfoldable pub add_block : ℤ → WaitGroup → Option (WaitGroup × List FiberWaiter)
unfolding next_count
add_block delta g = elim (next_count g.count delta) [
  | none ↦ none
  | some count ↦
      if count == 0
      then some (record { count = count; waiters = [] }, g.waiters)
      else some (record g { count = count }, [])
]

-- `done`
abbrev pub done_block : WaitGroup → Option (WaitGroup × List FiberWaiter)
done_block = add_block (negsuc 0)

-- The locked block of `wait`; true means that `wait` returns.
unfoldable pub wait_block : ℕ → WaitGroup → WaitGroup × Bool
wait_block f g =
    if g.count == 0 then (g, true) else (record g { waiters = g.waiters ++ f ∷ [] }, false)

-- Where a fiber stands.
pub data Pc : Type 0 where
  outside : Pc
  waiting : Pc  -- before the locked block of `wait`
  asleep : Pc  -- in `SuspendCurrentUntilNotified`
  notifying : List FiberWaiter → Pc  -- in `add`, before the calls of `NotifyWaiter`

pub record System : Type 0 where
  pub group : WaitGroup
  pub notified : Flags
  pub pc : ℕ → Pc

abbrev pub move : (ℕ → Pc) → ℕ → Pc → ℕ → Pc
move pc f p g = if f == g then p else pc g

-- One locked block or one atomic access of one fiber.
pub data Step (a : System) : System → Type 0 where
  add :
      (f : ℕ) (delta : ℤ) (g : WaitGroup) (ws : List FiberWaiter)
      → a.pc f ≡ outside
      → add_block delta a.group ≡ some (g, ws)
      → Step a (record a { group = g; pc = move a.pc f (notifying ws) })
  call_wait : (f : ℕ) → a.pc f ≡ outside → Step a (record a { pc = move a.pc f waiting })
  wait_returns :
      (f : ℕ)
      → a.pc f ≡ waiting
      → (wait_block f a.group).1 ≡ true
      → Step a (record a { pc = move a.pc f outside })
  wait_queued :
      (f : ℕ)
      → a.pc f ≡ waiting
      → (wait_block f a.group).1 ≡ false
      → Step a (record {
        group = (wait_block f a.group).0;
        notified = store_flag a.notified f false;
        pc = move a.pc f asleep;
      })
  wake :
      (f : ℕ)
      → a.pc f ≡ asleep
      → a.notified f ≡ true
      → Step a (record a { pc = move a.pc f waiting })
  notify_waiter :
      (f w : ℕ) (ws : List FiberWaiter)
      → a.pc f ≡ notifying (w ∷ ws)
      → Step a
          (record a { notified = store_flag a.notified w true; pc = move a.pc f (notifying ws) })
  notified_all : (f : ℕ) → a.pc f ≡ notifying [] → Step a (record a { pc = move a.pc f outside })

pub data Reach (a : System) : System → Type 0 where
  here : Reach a a
  next : {b c : System} → Reach a b → Step b c → Reach a c

abbrev pub start : System
start = record { group = new_wait_group; notified = λ f. false; pc = λ f. outside }
