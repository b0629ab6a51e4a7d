-- ===== src/Sync/Mutex/Safety.antt =====
-- include/mycoroutine/sync.h, `CoMutex`: mutual exclusion, hand-over and progress.
use coroutine_lib.Prelude.{ℕ, true, [], ◌∷◌, ◌++◌, ◌≡◌, refl, ◌⊎◌, inl, inr, arith, Bool-cases}
use coroutine_lib.Sync.{is_waiting}
use coroutine_lib.Sync.Mutex.{
  CoMutex, lock_block, lock_recheck, try_lock, may_unlock, unlock_block, suspended, woken, held,
  System, Step, call_lock, lock_at_once, lock_queued, wake, lock_returns, lock_again, try_succeeds,
  unlock_free, unlock_pass, notify_waiter, Reach, start,
}
use coroutine_lib.Sync.Mutex.Invariant.{Inv, Reach-Inv, owns, GetsOn}

-- In every reachable state at most one fiber has the mutex.
pub mutual_exclusion :
    {a : System} → Reach start a → (f g : ℕ) → a.pc f ≡ held → a.pc g ≡ held → f ≡ g
mutual_exclusion r f g p q =
    let inv = Reach-Inv r in ground (arith, inv.inside f (inl p), inv.inside g (inl q))

-- In every reachable state the assertions of `unlock` hold for every fiber that has the mutex, and
-- a fiber that was woken always finds itself the owner: it never goes back to the queue.
pub unlock_asserts :
    {a : System}
    → Reach start a
    → (f : ℕ) → (a.pc f ≡ held) ⊎ (a.pc f ≡ woken)
    → (may_unlock f a.mutex ≡ true) × (lock_recheck f a.mutex ≡ true)
unfolding may_unlock lock_recheck
unlock_asserts r f p = let inv = Reach-Inv r in ground (arith, inv.inside f p)

-- No wake-up is lost: in every reachable state a fiber that sleeps in `lock` is in the queue and
-- the mutex is locked by a fiber that has it or will get it, or it is itself the next owner, and
-- its flag is set or is about to be set.
pub no_lost_wakeup :
    {a : System}
    → Reach start a
    → (f : ℕ) → a.pc f ≡ suspended
    → ((is_waiting f a.mutex.waiters ≡ true)
        × (a.mutex.locked ≡ true)
        × GetsOn a.pc a.notified a.mutex.owner_fiber_id)
      ⊎ ((owns a.mutex f ≡ true) × GetsOn a.pc a.notified f)
no_lost_wakeup {a} r f p =
    let inv = Reach-Inv r in
    elim (inv.asleep f p) [
      | inr own ↦ inr (own, inv.alive f own)
      | inl waits ↦ elim (Bool-cases a.mutex.locked) [
        | inl l ↦ inl (waits, l, inv.alive a.mutex.owner_fiber_id (ground arith))
        | inr l ↦ absurd (ground (arith, inv.free l))
      ]
    ]

-- What a step may do to the mutex: leave the queue alone, and the owner too unless the queue is
-- empty; add its own fiber at the end of the queue of a locked mutex; or take the first fiber out
-- of the queue and make it the owner.
pub data FairMove (m n : CoMutex) : Type 0 where
  same :
      n.waiters ≡ m.waiters
      → (m.waiters ≡ []) ⊎ ((n.locked ≡ m.locked) × (n.owner_fiber_id ≡ m.owner_fiber_id))
      → FairMove m n
  joined :
      (f : ℕ)
      → n.waiters ≡ m.waiters ++ f ∷ []
      → (m.locked ≡ true) × (n.locked ≡ true) × (n.owner_fiber_id ≡ m.owner_fiber_id)
      → FairMove m n
  handed : (w : ℕ) → m.waiters ≡ w ∷ n.waiters → owns n w ≡ true → FairMove m n

-- The mutex is served in the order of arrival: in every reachable state each step leaves the queue
-- alone, and the owner too unless the queue is empty; or adds a fiber at the end of the queue of a
-- locked mutex; or makes the first fiber of the queue the owner. So no fiber that calls `lock` or
-- `tryLock` gets the mutex past a fiber in the queue.
pub first_come_first_served : {a b : System} → Reach start a → Step a b → FairMove a.mutex b.mutex
unfolding lock_block try_lock unlock_block
first_come_first_served {a} r st = served st
  where
    inv : Inv a
    inv = Reach-Inv r

    served : {b : System} → Step a b → FairMove a.mutex b.mutex
    served (call_lock f p) = same refl (inr (refl, refl))
    served (lock_at_once f p e) = same (ground arith) (inl (ground (arith, inv.free)))
    served (lock_queued f p e) = joined f (ground arith) (ground arith)
    served (try_succeeds f p e) = same (ground arith) (inl (ground (arith, inv.free)))
    served (unlock_free f p e) = same (ground arith) (inl (ground arith))
    served (unlock_pass f w p e) = handed w (ground arith) (ground (arith, inv.inside f))
    served (wake f p e) = same refl (inr (refl, refl))
    served (lock_returns f p e) = same refl (inr (refl, refl))
    served (lock_again f p e) = same refl (inr (refl, refl))
    served (notify_waiter f w p) = same refl (inr (refl, refl))
