-- ===== src/Sync/Mutex/Examples.antt =====
-- Fiber 1 has the mutex, fiber 2 waits for it: a run, and the theorems at its states.
use coroutine_lib.Prelude.{ℕ, true, false, some, ◌≡◌, refl, ◌⊎◌}
use coroutine_lib.Sync.{is_waiting, store_flag}
use coroutine_lib.Sync.Mutex.{
  new_mutex, lock_block, unlock_block, outside, trying, suspended, held, System, move, call_lock,
  lock_at_once, lock_queued, unlock_pass, Reach, here, next, start,
}
use coroutine_lib.Sync.Mutex.Invariant.{owns, GetsOn}
use coroutine_lib.Sync.Mutex.Safety.{
  mutual_exclusion, no_lost_wakeup, FairMove, first_come_first_served,
}

abbrev taken : System
taken = record {
  mutex = (lock_block 1 new_mutex).0;
  notified = λ f. false;
  pc = move (move (λ f. outside) 1 trying) 1 held;
}

taken-Reach : Reach start taken
unfolding lock_block new_mutex
taken-Reach = next (next here (call_lock 1 refl)) (lock_at_once 1 refl refl)

abbrev contended : System
contended = record {
  mutex = (lock_block 2 taken.mutex).0;
  notified = store_flag (λ f. false) 2 false;
  pc = move (move taken.pc 2 trying) 2 suspended;
}

contended-Reach : Reach start contended
unfolding lock_block new_mutex
contended-Reach = next (next taken-Reach (call_lock 2 refl)) (lock_queued 2 refl refl)

unlock_hands_over : (unlock_block contended.mutex).1 ≡ some 2
unfolding unlock_block lock_block new_mutex
unlock_hands_over = refl

mutual_exclusion_example : ◌≡◌ {A = ℕ} 1 1
mutual_exclusion_example = mutual_exclusion contended-Reach 1 1 refl refl

no_lost_wakeup_example :
    ((is_waiting 2 contended.mutex.waiters ≡ true)
      × (contended.mutex.locked ≡ true)
      × GetsOn contended.pc contended.notified contended.mutex.owner_fiber_id)
    ⊎ ((owns contended.mutex 2 ≡ true) × GetsOn contended.pc contended.notified 2)
no_lost_wakeup_example = no_lost_wakeup contended-Reach 2 refl

first_come_first_served_example : FairMove contended.mutex (unlock_block contended.mutex).0
first_come_first_served_example =
    first_come_first_served contended-Reach (unlock_pass 1 2 refl unlock_hands_over)
