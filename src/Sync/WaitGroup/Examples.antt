-- ===== src/Sync/WaitGroup/Examples.antt =====
-- A group in which fiber 1 adds 1 and fiber 2 waits.
use coroutine_lib.Prelude.{true, false, [], ◌≡◌, ◌≢◌, ◌⊎◌, refl}
use coroutine_lib.Prelude.Int.{pos}
use coroutine_lib.Sync.{store_flag, is_waiting}
use coroutine_lib.Sync.WaitGroup.{
  new_wait_group, next_count, add_block, wait_block, waiting, asleep, notifying, System, move, add,
  call_wait, wait_queued, Reach, here, next, start,
}
use coroutine_lib.Sync.WaitGroup.Wakeups.{Wakes, wait_not_lost}

abbrev added : System
added = record start {
  group = record { count = 1; waiters = [] };
  pc = move start.pc 1 (notifying []);
}

added-Reach : Reach start added
unfolding add_block next_count new_wait_group
added-Reach = next here (add 1 (pos 1) (record { count = 1; waiters = [] }) [] refl refl)

abbrev waited : System
waited = record {
  group = (wait_block 2 added.group).0;
  notified = store_flag (λ f. false) 2 false;
  pc = move (move added.pc 2 waiting) 2 asleep;
}

waited-Reach : Reach start waited
unfolding wait_block
waited-Reach = next (next added-Reach (call_wait 2 refl)) (wait_queued 2 refl refl)

wait_not_lost_example :
    ((is_waiting 2 waited.group.waiters ≡ true) × (waited.group.count ≢ 0))
    ⊎ Wakes waited.pc waited.notified 2
wait_not_lost_example = wait_not_lost waited-Reach 2 refl
