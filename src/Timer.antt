-- ===== src/Timer.antt =====
-- include/mycoroutine/timer.h and src/timer.cpp: timers and their manager.
-- A timer is a shared object: `timer_at` holds the objects by their address, and the set of the
-- manager is the list of addresses in the comparator's order. A time point is a number of
-- nanoseconds, as those of `system_clock`; it is taken not to overflow.
pub mod Manager
pub mod Expire
pub mod Order
pub mod Due
pub mod Expiry
pub mod Endless
pub mod Laws
pub mod Schedule
mod Examples
use coroutine_lib.Prelude.{
  ℕ, suc, ◌+◌, ◌-◌, ◌*◌, ◌/◌, Bool, true, false, ◌||◌, ◌&&◌, not, Option, none, some, List, [], ◌∷◌,
  ◌++◌, ltb, leb, ◌==◌, if◌then◌else◌, is_some, is_empty, u64_max,
}

pub record Timer : Type 0 where
  pub recurring : Bool
  pub ms : ℕ  -- uint64_t
  pub next : ℕ
  pub cb : Option ℕ  -- `none` is the empty function

pub record TimerManager : Type 0 where
  pub timer_at : ℕ → Timer
  pub fresh : ℕ  -- the address of the next `new Timer`
  pub timers : List ℕ
  pub tickled : Bool
  pub previous_time : ℕ

-- One millisecond in ticks of the clock.
abbrev pub tick_ms : ℕ → ℕ
tick_ms ms = ms * 1000000

abbrev pub update : (ℕ → Timer) → ℕ → Timer → ℕ → Timer
update f p v q = if p == q then v else f q

-- `Timer::Comparator`
unfoldable pub comes_before : (ℕ → Timer) → ℕ → ℕ → Bool
comes_before at lhs rhs =
    if ltb (at lhs).next (at rhs).next
    then true
    else if ltb (at rhs).next (at lhs).next
    then false
    else ltb lhs rhs

-- `std::set` with that comparator: two keys are the same if neither comes first.
unfoldable pub same_key : (ℕ → Timer) → ℕ → ℕ → Bool
same_key at p q = not (comes_before at p q) && not (comes_before at q p)

unfoldable pub set_find : (ℕ → Timer) → ℕ → List ℕ → Bool
set_find at p [] = false
set_find at p (q ∷ qs) = same_key at p q || set_find at p qs

unfoldable pub set_erase : (ℕ → Timer) → ℕ → List ℕ → List ℕ
set_erase at p [] = []
set_erase at p (q ∷ qs) = if same_key at p q then qs else q ∷ set_erase at p qs

unfoldable pub set_insert : (ℕ → Timer) → ℕ → List ℕ → List ℕ
set_insert at p [] = p ∷ []
set_insert at p (q ∷ qs) =
    if comes_before at p q
    then p ∷ q ∷ qs
    else if comes_before at q p
    then q ∷ set_insert at p qs
    else q ∷ qs

unfoldable pub is_first : ℕ → List ℕ → Bool
is_first p [] = false
is_first p (q ∷ qs) = p == q
