-- ===== src/Sync/Mutex.antt =====
-- include/mycoroutine/sync.h, `CoMutex`: its locked blocks, and the fibers that run through them.
pub mod Invariant
pub mod Safety
mod Examples
use coroutine_lib.Prelude.{
  ℕ, ◌-◌, ◌^◌, Bool, true, false, not, Option, none, some, List, [], ◌∷◌, ◌++◌, ◌==◌, if◌then◌else◌,
  ◌≡◌, u64_max,
}
use coroutine_lib.Sync.{FiberWaiter, Flags, store_flag, pop_waiter_front}

pub record CoMutex : Type 0 where
  pub locked : Bool
  pub owner_fiber_id : ℕ  -- uint64_t
  pub waiters : List FiberWaiter

abbrev pub no_owner : ℕ
no_owner = u64_max

unfoldable pub new_mutex : CoMutex
new_mutex = record { locked = false; owner_fiber_id = no_owner; waiters = [] }

-- The first locked block of `lock`; true means that `lock` returns.
unfoldable pub lock_block : ℕ → CoMutex → CoMutex × Bool
lock_block f m =
    if not m.locked
    then (record m { locked = true; owner_fiber_id = f }, true)
    else (record m { waiters = m.waiters ++ f ∷ [] }, false)

-- The second locked block of `lock`, after the waiter was notified.
unfoldable pub lock_recheck : ℕ → CoMutex → Bool
lock_recheck f m = m.owner_fiber_id == f

unfoldable pub try_lock : ℕ → CoMutex → CoMutex × Bool
try_lock f m =
    if m.locked then (m, false) else (record m { locked = true; owner_fiber_id = f }, true)

-- The assertions at the head of `unlock`.
unfoldable pub may_unlock : ℕ → CoMutex → Bool
may_unlock f m = if m.locked then m.owner_fiber_id == f else false

-- The locked block of `unlock`: the waiter that gets the lock, which is notified afterwards.
unfoldable pub unlock_block : CoMutex → CoMutex × Option FiberWaiter
unfolding pop_waiter_front
unlock_block m =
    let (next, rest) = pop_waiter_front m.waiters in
    elim next [
      | none ↦ (record m { locked = false; owner_fiber_id = no_owner; waiters = rest }, none)
      | some w ↦ (record m { owner_fiber_id = w; waiters = rest }, some w)
    ]

-- Where a fiber stands.
pub data Pc : Type 0 where
  outside : Pc
  trying : Pc  -- before the first locked block of `lock`
  suspended : Pc  -- in `SuspendCurrentUntilNotified`
  woken : Pc  -- before the second locked block of `lock`
  held : Pc  -- has the lock
  notifying : FiberWaiter → Pc  -- in `unlock`, before `NotifyWaiter`

pub record System : Type 0 where
  pub mutex : CoMutex
  pub notified : Flags
  pub pc : ℕ → Pc

abbrev pub move : (ℕ → Pc) → ℕ → Pc → ℕ → Pc
move pc f p g = if f == g then p else pc g

-- One locked block or one atomic access of one fiber. A fiber that yields may be resumed at any
-- time: until its flag is set it yields again, which is no step here.
pub data Step (a : System) : System → Type 0 where
  call_lock : (f : ℕ) → a.pc f ≡ outside → Step a (record a { pc = move a.pc f trying })
  lock_at_once :
      (f : ℕ)
      → a.pc f ≡ trying
      → (lock_block f a.mutex).1 ≡ true
      → Step a (record a { mutex = (lock_block f a.mutex).0; pc = move a.pc f held })
  lock_queued :
      (f : ℕ)
      → a.pc f ≡ trying
      → (lock_block f a.mutex).1 ≡ false
      → Step a (record {
        mutex = (lock_block f a.mutex).0;
        notified = store_flag a.notified f false;
        pc = move a.pc f suspended;
      })
  wake :
      (f : ℕ)
      → a.pc f ≡ suspended
      → a.notified f ≡ true
      → Step a (record a { pc = move a.pc f woken })
  lock_returns :
      (f : ℕ)
      → a.pc f ≡ woken
      → lock_recheck f a.mutex ≡ true
      → Step a (record a { pc = move a.pc f held })
  lock_again :
      (f : ℕ)
      → a.pc f ≡ woken
      → lock_recheck f a.mutex ≡ false
      → Step a (record a { pc = move a.pc f trying })
  try_succeeds :
      (f : ℕ)
      → a.pc f ≡ outside
      → (try_lock f a.mutex).1 ≡ true
      → Step a (record a { mutex = (try_lock f a.mutex).0; pc = move a.pc f held })
  unlock_free :
      (f : ℕ)
      → a.pc f ≡ held
      → (unlock_block a.mutex).1 ≡ none
      → Step a (record a { mutex = (unlock_block a.mutex).0; pc = move a.pc f outside })
  unlock_pass :
      (f w : ℕ)
      → a.pc f ≡ held
      → (unlock_block a.mutex).1 ≡ some w
      → Step a (record a { mutex = (unlock_block a.mutex).0; pc = move a.pc f (notifying w) })
  notify_waiter :
      (f w : ℕ)
      → a.pc f ≡ notifying w
      → Step a (record a { notified = store_flag a.notified w true; pc = move a.pc f outside })

pub data Reach (a : System) : System → Type 0 where
  here : Reach a a
  next : {b c : System} → Reach a b → Step b c → Reach a c

-- A new mutex, and no fiber in any of its methods.
abbrev pub start : System
start = record { mutex = new_mutex; notified = λ f. false; pc = λ f. outside }
