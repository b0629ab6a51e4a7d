-- ===== src/Timer/Endless.antt =====
-- src/timer.cpp, `listExpiredCb`: the recurring timers that keep its loop from ending.
use coroutine_lib.Prelude.{
  ℕ, zero, suc, ◌+◌, ◌-◌, ◌≡◌, refl, ◌∙◌, Bool, true, false, ◌||◌, ◌&&◌, List, [], ◌∷◌, Option,
  none, arith, All, Bool-cases, ltb, leb, ◌==◌, any, inl, inr,
}
use coroutine_lib.Timer.{Timer, TimerManager, tick_ms, update, comes_before, set_insert}
use coroutine_lib.Timer.Expire.{
  expire_front, is_due, expire_loop, list_expired_cb, detect_clock_rollover,
}
use coroutine_lib.Timer.Order.{IsOrdered, before-le, before_same}
use coroutine_lib.Timer.Due.{expire_loop_due, front-IsOrdered}

-- Serving such a timer puts it back where the loop will serve it again.
unfoldable pub comes_back : Bool → ℕ → Timer → Bool
comes_back rollover now t = t.recurring && (rollover || (t.ms == 0 && leb t.next now))

module _ (rollover : Bool) (now : ℕ) where
  abbrev has_endless : (ℕ → Timer) → List ℕ → Bool
  has_endless at = any (λ p. comes_back rollover now (at p))

  insert_endless :
      (at : ℕ → Timer) (p : ℕ) (ps : List ℕ)
      → ((comes_back rollover now (at p) || has_endless at ps) ≡ true)
      → has_endless at (set_insert at p ps) ≡ true
  unfolding set_insert
  insert_endless at p [] h = h
  insert_endless at p (q ∷ qs) h = ground (arith, insert_endless at p qs, before_same at p q)

  update_endless :
      (at : ℕ → Timer) (p : ℕ) (t : Timer) (ps : List ℕ)
      → (comes_back rollover now (at p) ≡ true → comes_back rollover now t ≡ true)
      → has_endless at ps ≡ true
      → has_endless (update at p t) ps ≡ true
  update_endless at p t [] k h = h
  update_endless at p t (q ∷ qs) k h = ground (arith, update_endless at p t qs k)

  -- In an ordered set with such a timer the timer at the front is due.
  front_due :
      (at : ℕ → Timer) (p : ℕ) (rest : List ℕ)
      → IsOrdered at (p ∷ rest)
      → has_endless at (p ∷ rest) ≡ true
      → is_due rollover now (at p) ≡ true
  unfolding is_due comes_back
  front_due at p rest o h = elim (Bool-cases (leb (at p).next now)) [
    | inl d ↦ ground arith
    | inr d ↦ ground (arith, none_due rest o.0)
  ]
    where
      none_due :
          (ps : List ℕ)
          → All (λ q. comes_before at p q ≡ true) ps
          → has_endless at ps ≡ true
          → rollover || leb (at p).next now ≡ true
      none_due [] k h = cc
      none_due (q ∷ qs) k h = ground (arith, before-le at p q k.0, none_due qs k.1)

  -- Such a timer is one again after it was served.
  served :
      (at : ℕ → Timer) (p : ℕ)
      → (at p).recurring ≡ true
      → comes_back rollover now (at p) ≡ true
      → comes_back rollover now (record (at p) { recurring = true; next = now + tick_ms (at p).ms })
        ≡ true
  unfolding comes_back
  served at p again k = ground arith

  front_endless :
      (p : ℕ) (rest : List ℕ) (m : TimerManager)
      → has_endless m.timer_at (p ∷ rest) ≡ true
      → has_endless (expire_front now p rest m).timer_at (expire_front now p rest m).timers ≡ true
  unfolding expire_front comes_back
  front_endless p rest m h = elim (Bool-cases (m.timer_at p).recurring) [
    | inr once ↦
        let t : Timer = record (m.timer_at p) { recurring = false; cb = none } in
        rw once (update_endless m.timer_at p t rest (λ k. ground arith) (ground arith))
    | inl again ↦
        let t : Timer = record (m.timer_at p) {
          recurring = true;
          next = now + tick_ms (m.timer_at p).ms;
        } in
        rw again (
          insert_endless (update m.timer_at p t) p rest
            (ground (arith, update_endless m.timer_at p t rest (served m.timer_at p again))))
  ]

  expire_loop_endless :
      (fuel : ℕ) (timers : List ℕ) (m : TimerManager) (cbs : List (Option ℕ))
      → m.timers ≡ timers
      → IsOrdered m.timer_at timers
      → has_endless m.timer_at timers ≡ true
      → expire_loop fuel rollover now m cbs ≡ none
  unfolding expire_loop
  expire_loop_endless zero timers m cbs e o h = refl
  expire_loop_endless (suc fuel) [] m cbs e o h = cc
  expire_loop_endless (suc fuel) (p ∷ rest) m cbs e o h =
      let next = expire_front now p rest m in
      expire_loop_due fuel rollover now m cbs p rest e (front_due m.timer_at p rest o h)
      ∙ expire_loop_endless fuel next.timers next _ refl (front-IsOrdered now p rest m o)
          (front_endless p rest m h)

-- Whether the call of `detectClockRollover` sees the clock more than an hour back.
abbrev pub rolled_over : ℕ → TimerManager → Bool
rolled_over later m = ltb later (m.previous_time - tick_ms 3600000)

-- With an ordered set, `listExpiredCb` never ends, whatever the fuel, if the set holds a recurring
-- timer and the clock has gone back by more than an hour, or if it holds a recurring timer of
-- period 0 that is due.
pub list_expired_cb_endless :
    (fuel now later : ℕ) (m : TimerManager)
    → IsOrdered m.timer_at m.timers
    → any (λ p. comes_back (rolled_over later m) now (m.timer_at p)) m.timers ≡ true
    → list_expired_cb fuel now later m ≡ none
unfolding list_expired_cb detect_clock_rollover
list_expired_cb_endless fuel now later m o h =
    expire_loop_endless (rolled_over later m) now fuel m.timers _ [] refl o h
