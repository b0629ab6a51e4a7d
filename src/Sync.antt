-- ===== src/Sync.antt =====
-- include/mycoroutine/sync.h: waiting fibers.
-- A call that waits makes one `FiberWaiter` for the calling fiber and uses it until it returns, so
-- a waiter is the number of its fiber; `notified` holds the flags of the waiters.
pub mod Mutex
pub mod Channel
pub mod WaitGroup
use coroutine_lib.Prelude.{
  ℕ, suc, Bool, true, false, Option, none, some, List, [], ◌∷◌, ◌++◌, ◌==◌, if◌then◌else◌, any, ◌≡◌,
  ◌≢◌, ◌||◌, refl, arith, append-nil, All,
}

abbrev pub FiberWaiter : Type 0
FiberWaiter = ℕ

-- `PopWaiterFront`
unfoldable pub pop_waiter_front : List FiberWaiter → Option FiberWaiter × List FiberWaiter
pop_waiter_front [] = (none, [])
pop_waiter_front (w ∷ queue) = (some w, queue)

abbrev pub Flags : Type 0
Flags = ℕ → Bool

-- `notified.store`
abbrev pub store_flag : Flags → FiberWaiter → Bool → Flags
store_flag n w b f = if w == f then b else n f

abbrev pub is_waiting : FiberWaiter → List FiberWaiter → Bool
is_waiting f = any (λ w. w == f)

abbrev pub Unique : List FiberWaiter → Type 0
Unique [] = Unit {0}
Unique (w ∷ ws) = (is_waiting w ws ≡ false) × Unique ws

pub is_waiting-append :
    (f w : FiberWaiter) (ws : List FiberWaiter)
    → is_waiting f (ws ++ w ∷ []) ≡ (is_waiting f ws || w == f)
is_waiting-append f w [] = ground arith
is_waiting-append f w (x ∷ xs) = ground (arith, is_waiting-append f w xs)

pub Unique-append :
    (w : FiberWaiter) (ws : List FiberWaiter)
    → is_waiting w ws ≡ false
    → Unique ws
    → Unique (ws ++ w ∷ [])
Unique-append w [] h u = (refl, tt)
Unique-append w (x ∷ xs) h u =
    (ground (arith, is_waiting-append x w xs), Unique-append w xs (ground arith) u.1)
