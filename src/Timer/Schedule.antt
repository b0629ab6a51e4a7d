-- ===== src/Timer/Schedule.antt =====
-- src/timer.cpp: `refresh`, `reset` and `getNextTimer`.
use coroutine_lib.Prelude.{
  ℕ, ◌+◌, ◌-◌, ◌/◌, ◌≤◌, ◌<◌, ◌≡◌, refl, ◌⊎◌, inl, inr, Bool, true, false, ◌&&◌, not, List, [], ◌∷◌,
  arith, All, All-mono, Bool-cases, leb, ◌==◌, is_some, if◌then◌else◌, u64_max,
}
use coroutine_lib.Timer.{Timer, TimerManager, tick_ms, update, set_insert, set_find, set_erase}
use coroutine_lib.Timer.Manager.{refresh, insert_timer, reset, get_next_timer, next_wait}
use coroutine_lib.Timer.Order.{
  IsOrdered, before-le, insert-IsOrdered, erase-IsOrdered, erase_absent, find-insert,
  update-IsOrdered,
}

-- Timer `p` is in the set, which is ordered, and is due at `time`.
pub record IsScheduled (p time : ℕ) (m : TimerManager) : Type 0 where
  pub ordered : IsOrdered m.timer_at m.timers
  pub found : set_find m.timer_at p m.timers ≡ true
  pub due : (m.timer_at p).next ≡ time

-- The timer is taken out of an ordered set, changed, and put back.
module _ (p : ℕ) (t : Timer) (at : ℕ → Timer) (ps : List ℕ) (o : IsOrdered at ps) where
  replaced-IsOrdered :
      IsOrdered (update at p t) (set_insert (update at p t) p (set_erase at p ps))
      × (set_find (update at p t) p (set_insert (update at p t) p (set_erase at p ps)) ≡ true)
  replaced-IsOrdered = (
    insert-IsOrdered (update at p t) p (set_erase at p ps) (
        update-IsOrdered at p t (set_erase at p ps) (erase_absent at p ps o)
          (erase-IsOrdered at p ps o)),
    find-insert (update at p t) p (set_erase at p ps),
  )

module _ (p : ℕ) (m : TimerManager) (o : IsOrdered m.timer_at m.timers) where
  -- With an ordered set, `refresh` fails on a timer that has no callback or is not in the set, and
  -- then changes nothing; otherwise the timer is due one period after now, and the set stays
  -- ordered.
  pub refresh-IsScheduled :
      (now : ℕ)
      → ((refresh p now m ≡ (m, false))
          × ((is_some (m.timer_at p).cb ≡ false) ⊎ (set_find m.timer_at p m.timers ≡ false)))
        ⊎ (((refresh p now m).1 ≡ true)
            × IsScheduled p (now + tick_ms (m.timer_at p).ms) (refresh p now m).0)
  unfolding refresh
  refresh-IsScheduled now = elim (Bool-cases (is_some (m.timer_at p).cb)) [
    | inr dead ↦ inl (rw dead, inl dead)
    | inl live ↦ elim (Bool-cases (set_find m.timer_at p m.timers)) [
      | inr lost ↦ inl (rw (live, lost), inr lost)
      | inl f ↦
          let t : Timer = record (m.timer_at p) { next = now + tick_ms (m.timer_at p).ms } in
          let (ordered, found) = replaced-IsOrdered p t m.timer_at m.timers o in
          inr (rw (live, f) (refl, record { ordered = ordered; found = found; due = ground arith }))
    ]
  ]

  -- Where `reset` starts to count from.
  abbrev start_of : Bool → ℕ → ℕ
  start_of from_now now = if from_now then now else (m.timer_at p).next - tick_ms (m.timer_at p).ms

  -- With an ordered set, `reset` with a new period, or from now, on a timer that has its callback
  -- and is in the set: the timer is due one new period after the start, and the set stays ordered.
  pub reset-IsScheduled :
      (ms : ℕ) (from_now : Bool) (now : ℕ)
      → is_some (m.timer_at p).cb ≡ true
      → set_find m.timer_at p m.timers ≡ true
      → (ms == (m.timer_at p).ms && not from_now) ≡ false
      → ((reset p ms from_now now m).1 ≡ true)
        × IsScheduled p (start_of from_now now + tick_ms ms) (reset p ms from_now now m).0
  unfolding reset insert_timer
  reset-IsScheduled ms from_now now live f change =
      let t : Timer = record (m.timer_at p) {
        ms = ms;
        next = start_of from_now now + tick_ms ms;
      } in
      let (ordered, found) = replaced-IsOrdered p t m.timer_at m.timers o in
      rw (live, f, change) (refl, record { ordered = ordered; found = found; due = ground arith })

-- A wait of `r` milliseconds from now fits a set of timers: it ends less than a millisecond before
-- the first of them is due, or later, and no timer is overdue then, unless it is no wait at all.
pub record Fits (at : ℕ → Timer) (now : ℕ) (timers : List ℕ) (r : ℕ) : Type 0 where
  pub first : ℕ
  pub others : List ℕ
  pub split : timers ≡ first ∷ others
  pub late : (at first).next < now + tick_ms (r + 1)
  pub early : (r ≡ 0) ⊎ All (λ q. now + tick_ms r ≤ (at q).next) timers

next_wait-Fits :
    (at : ℕ → Timer) (now p : ℕ) (ps : List ℕ)
    → IsOrdered at (p ∷ ps)
    → Fits at now (p ∷ ps) (next_wait at now (p ∷ ps))
unfolding next_wait
next_wait-Fits at now p ps o = elim (Bool-cases (leb (at p).next now)) [
  | inl d ↦
      rw d (record { first = p; others = ps; split = refl; late = ground arith; early = inl refl })
  | inr d ↦
      let wait = ((at p).next - now) / 1000000 in
      let first : now + tick_ms wait ≤ (at p).next = ground arith in
      rw d (record {
        first = p;
        others = ps;
        split = refl;
        late = ground arith;
        early = inr (first, All-mono _ _ ps (λ q k. omega (arith, before-le at p q k)) o.0);
      })
]

-- With an ordered set, `getNextTimer` answers the largest number if the set is empty, and otherwise
-- a wait in milliseconds that ends less than a millisecond before the first timer is due, or later,
-- and after which no timer is overdue, unless the answer is 0.
pub get_next_timer-Fits :
    (now : ℕ) (m : TimerManager)
    → IsOrdered m.timer_at m.timers
    → ((m.timers ≡ []) × ((get_next_timer now m).1 ≡ u64_max))
      ⊎ Fits m.timer_at now m.timers (get_next_timer now m).1
unfolding get_next_timer
get_next_timer-Fits now m o = by_timers m.timers o
  where
    by_timers :
        (ps : List ℕ)
        → IsOrdered m.timer_at ps
        → ((ps ≡ []) × (next_wait m.timer_at now ps ≡ u64_max))
          ⊎ Fits m.timer_at now ps (next_wait m.timer_at now ps)
    by_timers [] o = inl (refl, refl)
    by_timers (p ∷ ps) o = inr (next_wait-Fits m.timer_at now p ps o)
