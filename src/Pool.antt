-- ===== src/Pool.antt =====
-- include/mycoroutine/coroutine_pool.h and src/coroutine_pool.cpp: the pool of finished fibers.
-- The cache is a finite map from keys to buckets, as a list of pairs. A fiber is a number;
-- `state_of` tells its state, and a size is a `size_t`.
pub mod Keys
pub mod Bounds
mod Examples
use coroutine_lib.Prelude.{
  ℕ, suc, ◌+◌, ◌%◌, ◌*◌, ◌^◌, Bool, true, false, Option, none, some, List, [], ◌∷◌, ◌++◌, ◌==◌, ltb,
  if◌then◌else◌, is_some, length,
}
use coroutine_lib.Fiber.{State, ready, running, term}

pub record CoroutinePool : Type 0 where
  pub cache : List (ℕ × List ℕ)
  pub max_cached_per_key : ℕ

unfoldable pub normalize_stack_size : ℕ → ℕ
normalize_stack_size stacksize = if stacksize == 0 then 128000 else stacksize

unfoldable pub new_pool : ℕ → CoroutinePool
new_pool max = record { cache = []; max_cached_per_key = if max == 0 then 1 else max }

abbrev pub flag : Bool → ℕ → ℕ
flag b weight = if b then weight else 0

-- `makeKey`: the bits 62 and 63 are not among the 60 bits of the size, so `|` is a sum.
unfoldable pub make_key : ℕ → Bool → Bool → ℕ
unfolding normalize_stack_size
make_key stacksize run_in_scheduler use_shared_stack =
    normalize_stack_size stacksize % 2 ^ 60
    + flag run_in_scheduler (2 ^ 62)
    + flag use_shared_stack (2 ^ 63)

-- `m_cache[key]`, as a reader and as a writer.
unfoldable pub bucket : ℕ → List (ℕ × List ℕ) → List ℕ
bucket key [] = []
bucket key ((k, fibers) ∷ rest) = if key == k then fibers else bucket key rest

unfoldable pub put_bucket : ℕ → List ℕ → List (ℕ × List ℕ) → List (ℕ × List ℕ)
put_bucket key fibers [] = (key, fibers) ∷ []
put_bucket key fibers ((k, old) ∷ rest) =
    if key == k then (k, fibers) ∷ rest else (k, old) ∷ put_bucket key fibers rest

-- `back` and `pop_back`.
unfoldable pub pop_back : List ℕ → Option (ℕ × List ℕ)
pop_back [] = none
pop_back (x ∷ xs) = elim (pop_back xs) [ none ↦ some (x, []) | some (y, ys) ↦ some (y, x ∷ ys) ]

-- What `acquire` gives: no fiber, one of the pool, which it resets, or a new one.
pub data Acquired : Type 0 where
  refused : Acquired
  reused : ℕ → Acquired
  created : Acquired

unfoldable pub acquire : Option ℕ → ℕ → Bool → Bool → CoroutinePool → CoroutinePool × Acquired
unfolding make_key bucket put_bucket pop_back
acquire cb stacksize run_in_scheduler use_shared_stack pool =
    let key = make_key stacksize run_in_scheduler use_shared_stack in
    if is_some cb
    then elim (pop_back (bucket key pool.cache)) [
      | none ↦ (pool, created)
      | some (fiber, rest) ↦ (record pool { cache = put_bucket key rest pool.cache }, reused fiber)
    ]
    else (pool, refused)

abbrev pub is_term : State → Bool
is_term term = true
is_term _ = false

-- `release`; the result is the caller's pointer afterwards.
unfoldable pub release :
    (ℕ → State) → Option ℕ → ℕ → Bool → Bool → CoroutinePool → CoroutinePool × Option ℕ
unfolding make_key bucket put_bucket
release state_of none stacksize run_in_scheduler use_shared_stack pool = (pool, none)
release state_of (some fiber) stacksize run_in_scheduler use_shared_stack pool =
    let key = make_key stacksize run_in_scheduler use_shared_stack in
    let fibers = bucket key pool.cache in
    if is_term (state_of fiber)
    then (
      record pool {
        cache =
            put_bucket key
              (if ltb (length fibers) pool.max_cached_per_key then fibers ++ fiber ∷ [] else fibers)
              pool.cache;
      },
      none,
    )
    else (pool, some fiber)

unfoldable pub set_max_cached_per_key : ℕ → CoroutinePool → CoroutinePool
set_max_cached_per_key max pool = record pool { max_cached_per_key = if max == 0 then 1 else max }

unfoldable pub cached_count : ℕ → Bool → Bool → CoroutinePool → ℕ
unfolding make_key bucket
cached_count stacksize run_in_scheduler use_shared_stack pool =
    length (bucket (make_key stacksize run_in_scheduler use_shared_stack) pool.cache)

unfoldable pub clear : CoroutinePool → CoroutinePool
clear pool = record pool { cache = [] }
