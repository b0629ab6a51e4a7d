-- ===== src/Pool/Keys.antt =====
-- src/coroutine_pool.cpp: keys and buckets.
use coroutine_lib.Prelude.{ℕ, ◌^◌, ◌<◌, Bool, some, List, [], ◌∷◌, ◌++◌, ◌≡◌, ◌≢◌, refl, arith}
use coroutine_lib.Pool.{normalize_stack_size, make_key, bucket, put_bucket, pop_back}

-- For stacks of less than 2^60 bytes equal keys come from equal parameters: the same size, once 0
-- is replaced by the default, and the same two flags.
pub make_key_injective :
    (a b : ℕ) (r r' s s' : Bool)
    → a < 2 ^ 60
    → b < 2 ^ 60
    → make_key a r s ≡ make_key b r' s'
    → (normalize_stack_size a ≡ normalize_stack_size b) × (r ≡ r') × (s ≡ s')
unfolding make_key normalize_stack_size
make_key_injective a b r r' s s' h k e = ground arith

pub bucket-put_self :
    (key : ℕ) (fibers : List ℕ) (cache : List (ℕ × List ℕ))
    → bucket key (put_bucket key fibers cache) ≡ fibers
unfolding bucket put_bucket
bucket-put_self key fibers [] = ground arith
bucket-put_self key fibers ((k, old) ∷ rest) = ground (arith, bucket-put_self key fibers rest)

pub bucket-put_ne :
    (key other : ℕ) (fibers : List ℕ) (cache : List (ℕ × List ℕ))
    → key ≢ other
    → bucket other (put_bucket key fibers cache) ≡ bucket other cache
unfolding bucket put_bucket
bucket-put_ne key other fibers [] n = ground arith
bucket-put_ne key other fibers ((k, old) ∷ rest) n =
    ground (arith, bucket-put_ne key other fibers rest n)

pub pop_back-append : (xs : List ℕ) (x : ℕ) → pop_back (xs ++ x ∷ []) ≡ some (x, xs)
unfolding pop_back
pop_back-append [] x = refl
pop_back-append (y ∷ ys) x = ground (arith, pop_back-append ys x)
