-- ===== src/Pool/Bounds.antt =====
-- src/coroutine_pool.cpp: how many fibers the pool keeps, and which it gives back.
use coroutine_lib.Prelude.{
  ℕ, ◌<◌, ◌≤◌, Bool, Option, none, some, List, [], ◌∷◌, ◌++◌, ◌≡◌, refl, subst, ◌∙◌, length, lt→ltb,
}
use native.Mathlib.Decide.{ℕ_discrete}
use coroutine_lib.Fiber.{State, term}
use coroutine_lib.Pool.{
  CoroutinePool, make_key, bucket, put_bucket, pop_back, reused, acquire, release, clear,
}
use coroutine_lib.Pool.Keys.{bucket-put_self, bucket-put_ne, pop_back-append}

abbrev pub IsBounded : CoroutinePool → Type 0
IsBounded pool = (key : ℕ) → length (bucket key pool.cache) ≤ pool.max_cached_per_key

-- The calls of the pool that leave its limit alone.
pub data PoolCall : Type 0 where
  acquires : Option ℕ → ℕ → Bool → Bool → PoolCall
  releases : (ℕ → State) → Option ℕ → ℕ → Bool → Bool → PoolCall
  clears : PoolCall

abbrev pub run_pool : List PoolCall → CoroutinePool → CoroutinePool
run_pool [] pool = pool
run_pool (acquires cb n r s ∷ cs) pool = run_pool cs (acquire cb n r s pool).0
run_pool (releases state_of fiber n r s ∷ cs) pool =
    run_pool cs (release state_of fiber n r s pool).0
run_pool (clears ∷ cs) pool = run_pool cs (clear pool)

-- A finished fiber that is released while its bucket has room leaves the caller's pointer empty,
-- and is the one that the next `acquire` with the same parameters gives; then all buckets are as
-- before.
pub release_then_acquire :
    (state_of : ℕ → State) (fiber cb n : ℕ) (r s : Bool) (pool : CoroutinePool)
    → state_of fiber ≡ term
    → length (bucket (make_key n r s) pool.cache) < pool.max_cached_per_key
    → (full after : CoroutinePool) × (release state_of (some fiber) n r s pool ≡ (full, none))
      × (acquire (some cb) n r s full ≡ (after, reused fiber))
      × ((key : ℕ) → bucket key after.cache ≡ bucket key pool.cache)
unfolding release acquire
release_then_acquire state_of fiber cb n r s pool finished room =
    let key = make_key n r s in
    let fibers = bucket key pool.cache in
    let full : CoroutinePool = record pool {
      cache = put_bucket key (fibers ++ fiber ∷ []) pool.cache;
    } in
    let after : CoroutinePool = record full { cache = put_bucket key fibers full.cache } in
    let last : pop_back (bucket key full.cache) ≡ some (fiber, fibers) =
      rw (bucket-put_self key (fibers ++ fiber ∷ []) pool.cache) (pop_back-append fibers fiber) in
    (
      full,
      after,
      rw (release, finished, lt→ltb (length fibers) pool.max_cached_per_key room) refl,
      rw (acquire, last) refl,
      λ other. elim (ℕ_discrete key other) [
        | yes e ↦
            subst (λ k. bucket k after.cache ≡ bucket k pool.cache) e
              (bucket-put_self key fibers full.cache)
        | no e ↦
            bucket-put_ne key other fibers full.cache e
            ∙ bucket-put_ne key other (fibers ++ fiber ∷ []) pool.cache e
      ],
    )
