-- ===== src/Pool/Examples.antt =====
-- A pool of one fiber per key, and the theorems there.
use coroutine_lib.Prelude.{ℕ, ◌<◌, true, false, none, some, List, [], ◌∷◌, ◌≡◌, refl, arith, length}
use coroutine_lib.Fiber.{State, term}
use coroutine_lib.Pool.{CoroutinePool, new_pool, make_key, bucket, acquire, reused, release}
use coroutine_lib.Pool.Bounds.{PoolCall, acquires, releases, release_then_acquire}

abbrev all_finished : ℕ → State
all_finished fiber = term

abbrev pool_script : List PoolCall
pool_script =
    releases all_finished (some 1) 0 true false
    ∷ releases all_finished (some 2) 0 true false
    ∷ acquires (some 7) 0 true false
    ∷ []

room_for_one :
    length (bucket (make_key 0 true false) (new_pool 1).cache) < (new_pool 1).max_cached_per_key
unfolding new_pool bucket
room_for_one = omega arith

release_then_acquire_example :
    (full after : CoroutinePool) × (release all_finished (some 1) 0 true false (new_pool 1)
      ≡ (full, none))
    × (acquire (some 7) 0 true false full ≡ (after, reused 1))
    × ((key : ℕ) → bucket key after.cache ≡ bucket key (new_pool 1).cache)
release_then_acquire_example =
    release_then_acquire all_finished 1 7 0 true false (new_pool 1) refl room_for_one
