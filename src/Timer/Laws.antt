-- ===== src/Timer/Laws.antt =====
-- src/timer.cpp: what the methods of `Timer` and `TimerManager` leave behind.
use coroutine_lib.Prelude.{
  ℕ, ◌+◌, ◌<◌, ◌≡◌, ◌≢◌, refl, ap, ◌∙◌, inl, inr, Bool, true, false, ◌||◌, ◌&&◌, not, List, [], ◌∷◌,
  Option, none, arith, All, All-mono, Bool-cases, is_some, if◌then◌else◌,
}
use coroutine_lib.Timer.{Timer, TimerManager, update, comes_before, set_find, set_erase, is_first}
use coroutine_lib.Timer.Manager.{cancel, insert_timer, add_timer, new_timer, reset_take, reset_put}
use coroutine_lib.Timer.Order.{
  IsOrdered, insert-IsOrdered, insert-All, erase-IsOrdered, erase_absent, absent_of_find,
  find-insert, update-IsOrdered,
}

-- The set is ordered, and holds only timers that were made.
pub record IsManaged (m : TimerManager) : Type 0 where
  pub ordered : IsOrdered m.timer_at m.timers
  pub made : All (λ p. p < m.fresh) m.timers

module _ (at at' : ℕ → Timer) (same : (q : ℕ) → (at' q).next ≡ (at q).next) where
  before_cong : (p q : ℕ) → comes_before at' p q ≡ comes_before at p q
  unfolding comes_before
  before_cong p q = ground (arith, same p, same q)

  -- The order depends on the time points alone.
  IsOrdered-cong : (ps : List ℕ) → IsOrdered at ps → IsOrdered at' ps
  IsOrdered-cong [] o = tt
  IsOrdered-cong (p ∷ ps) o =
      (All-mono _ _ ps (λ q k. before_cong p q ∙ k) o.0, IsOrdered-cong ps o.1)

dropped : TimerManager → ℕ → ℕ → Timer
dropped m p = update m.timer_at p (record (m.timer_at p) { cb = none })

dropped_next : (m : TimerManager) (p q : ℕ) → (dropped m p q).next ≡ (m.timer_at q).next
unfolding dropped
dropped_next m p q = ground arith

-- Erase, if it is found.
dropped_from : (ℕ → Timer) → ℕ → List ℕ → List ℕ
dropped_from at p ps = if set_find at p ps then set_erase at p ps else ps

dropped_from-IsOrdered :
    (at : ℕ → Timer) (p : ℕ) (ps : List ℕ)
    → IsOrdered at ps
    → All (λ q. p ≢ q) (dropped_from at p ps) × IsOrdered at (dropped_from at p ps)
unfolding dropped_from
dropped_from-IsOrdered at p ps o = elim (Bool-cases (set_find at p ps)) [
  | inl f ↦ rw f (erase_absent at p ps o, erase-IsOrdered at p ps o)
  | inr f ↦ rw f (absent_of_find at p ps f, o)
]

module _ (p : ℕ) (m : TimerManager) where
  cancelled : TimerManager
  unfolding dropped dropped_from
  cancelled = record m { timer_at = dropped m p; timers = dropped_from (dropped m p) p m.timers }

  cancel_live : is_some (m.timer_at p).cb ≡ true → cancel p m ≡ (cancelled, true)
  unfolding cancel cancelled
  cancel_live h = rw h

  cancel_dead : is_some (m.timer_at p).cb ≡ false → cancel p m ≡ (m, false)
  unfolding cancel
  cancel_dead h = rw h

  cancelled-cb : (cancelled.timer_at p).cb ≡ none
  unfolding cancelled
  cancelled-cb = ground arith

  cancelled-IsOrdered :
      IsOrdered m.timer_at m.timers
      → All (λ q. p ≢ q) cancelled.timers × IsOrdered cancelled.timer_at cancelled.timers
  unfolding cancelled
  cancelled-IsOrdered o =
      dropped_from-IsOrdered (dropped m p) p m.timers
        (IsOrdered-cong m.timer_at (dropped m p) (dropped_next m p) m.timers o)

module _ (p : ℕ) (m : TimerManager) where
  -- With an ordered set, `cancel` of a timer that has its callback succeeds; then the timer is not
  -- in the set any more, the set is still ordered, and another `cancel` fails.
  pub cancel_removes :
      IsOrdered m.timer_at m.timers
      → is_some (m.timer_at p).cb ≡ true
      → ((cancel p m).1 ≡ true)
        × All (λ q. p ≢ q) (cancel p m).0.timers
        × IsOrdered (cancel p m).0.timer_at (cancel p m).0.timers
        × ((cancel p (cancel p m).0).1 ≡ false)
  cancel_removes o h =
      let (gone, ordered) = cancelled-IsOrdered p m o in
      let dead : is_some ((cancelled p m).timer_at p).cb ≡ false =
        ap (λ c. is_some c) (cancelled-cb p m) in
      rw (cancel_live p m h)
        (refl, gone, ordered, ap (λ r. r.1) (cancel_dead p (cancelled p m) dead))

  -- On a timer that has its callback and is in the set, `reset` gives up the lock between its two
  -- halves. If the timer is cancelled there, `cancel`
  -- reports success, and the second half puts the timer back into the set, without its callback.
  pub reset_races_cancel :
      (ms : ℕ) (from_now : Bool) (now : ℕ)
      → is_some (m.timer_at p).cb ≡ true
      → set_find m.timer_at p m.timers ≡ true
      → let taken = (reset_take p m).0 in
        let back = (reset_put p ms from_now now (cancel p taken).0).0 in
        ((reset_take p m).1 ≡ true)
        × ((cancel p taken).1 ≡ true)
        × (set_find back.timer_at p back.timers ≡ true)
        × ((back.timer_at p).cb ≡ none)
  unfolding reset_take reset_put insert_timer cancelled
  reset_races_cancel ms from_now now h f =
      let taken : TimerManager = record m { timers = set_erase m.timer_at p m.timers } in
      rw (h, f)
        (rw (cancel_live p taken h) (
          refl,
          refl,
          find-insert _ p (cancelled p taken).timers,
          ground (arith, cancelled-cb p taken),
        ))

module _ (m : TimerManager) where
  -- In a manager with an ordered set of timers that it has made, `addTimer` puts the new timer into
  -- the set, which stays ordered; the front hook runs exactly if the timer is the first and no hook
  -- has run since the last `getNextTimer`, and from then on none runs.
  pub add_timer-IsManaged :
      (ms : ℕ) (cb : Option ℕ) (recurring : Bool) (now : ℕ)
      → IsManaged m
      → let added = add_timer ms cb recurring now m in
        IsManaged added.manager
        × (set_find added.manager.timer_at added.timer added.manager.timers ≡ true)
        × (added.at_front ≡ (is_first added.timer added.manager.timers && not m.tickled))
        × (added.manager.tickled ≡ (m.tickled || added.at_front))
  unfolding add_timer insert_timer
  add_timer-IsManaged ms cb recurring now v =
      let q = m.fresh in
      let t = new_timer ms cb recurring now in
      let at = update m.timer_at q t in
      let unused = All-mono _ (λ r. q ≢ r) m.timers (λ r k. omega arith) v.made in
      (
        record {
          ordered =
              insert-IsOrdered at q m.timers
                (update-IsOrdered m.timer_at q t m.timers unused v.ordered);
          made =
              insert-All at (λ r. r < q + 1) q m.timers (omega arith)
                (All-mono _ _ m.timers (λ r k. omega arith) v.made);
        },
        find-insert at q m.timers,
        refl,
        ground arith,
      )
