-- ===== src/Timer/Due.antt =====
-- src/timer.cpp, `listExpiredCb`, while the clock has not gone back.
use coroutine_lib.Prelude.{
  ℕ, zero, suc, ◌+◌, ◌≤◌, ◌<◌, ◌≡◌, ◌≢◌, refl, sym, ap, subst, ◌∙◌, Bool, true, false, List, [],
  ◌∷◌, ◌++◌, append_assoc, append-nil, Option, none, some, arith, All, All-mono, All-zip,
  if◌then◌else◌, leb, Bool-cases, ◌⊎◌, inl, inr, length,
}
use coroutine_lib.Timer.{Timer, TimerManager, tick_ms, update, set_insert}
use coroutine_lib.Timer.Expire.{expire_front, is_due, expire_loop}
use coroutine_lib.Timer.Order.{
  IsOrdered, before-ne, before-le, insert-IsOrdered, update-IsOrdered, insert-All,
}

-- The callbacks of the timers of a set that are due, in its order.
unfoldable pub due_cbs : (ℕ → Timer) → ℕ → List ℕ → List (Option ℕ)
due_cbs at now [] = []
due_cbs at now (p ∷ ps) =
    if leb (at p).next now then (at p).cb ∷ due_cbs at now ps else due_cbs at now ps

pub count_due : (ℕ → Timer) → ℕ → List ℕ → ℕ
count_due at now [] = 0
count_due at now (p ∷ ps) =
    if leb (at p).next now then suc (count_due at now ps) else count_due at now ps

abbrev pub AllLater : (ℕ → Timer) → ℕ → List ℕ → Type 0
AllLater at now = All (λ p. now < (at p).next)

-- A recurring timer comes due again only after a whole period.
abbrev pub HasPeriods : (ℕ → Timer) → List ℕ → Type 0
HasPeriods at = All (λ p. ((at p).recurring ≡ false) ⊎ (0 < (at p).ms))

module _ (at : ℕ → Timer) (now : ℕ) where
  pub insert_later :
      (p : ℕ) (ps : List ℕ)
      → now < (at p).next
      → (due_cbs at now (set_insert at p ps) ≡ due_cbs at now ps)
        × (count_due at now (set_insert at p ps) ≡ count_due at now ps)
  unfolding set_insert due_cbs count_due
  insert_later p [] h = ground arith
  insert_later p (q ∷ qs) h = ground (arith, insert_later p qs h)

  later_due :
      (ps : List ℕ) → AllLater at now ps → (due_cbs at now ps ≡ []) × (count_due at now ps ≡ 0)
  unfolding due_cbs count_due
  later_due [] h = (refl, refl)
  later_due (p ∷ ps) h = ground (arith, later_due ps h.1)

  pub count_due-le : (ps : List ℕ) → count_due at now ps ≤ length ps
  unfolding count_due
  count_due-le [] = omega arith
  count_due-le (p ∷ ps) = ground (arith, count_due-le ps)

  -- If the first timer of an ordered set is not due, none is.
  front_later :
      (p : ℕ) (ps : List ℕ) → IsOrdered at (p ∷ ps) → now < (at p).next → AllLater at now (p ∷ ps)
  front_later p ps o h = (h, All-mono _ _ ps (λ q k. omega (arith, before-le at p q k)) o.0)

module _ (at : ℕ → Timer) (now p : ℕ) (t : Timer) where
  pub update_due :
      (ps : List ℕ)
      → All (λ q. p ≢ q) ps
      → (due_cbs (update at p t) now ps ≡ due_cbs at now ps)
        × (count_due (update at p t) now ps ≡ count_due at now ps)
  unfolding due_cbs count_due
  update_due [] d = (refl, refl)
  update_due (q ∷ qs) d = ground (arith, update_due qs d.1)

-- The set after the timer at the front has been served, as the rest of the loop sees it.
record Served (at : ℕ → Timer) (now : ℕ) (rest : List ℕ) (m : TimerManager) : Type 0 where
  cbs : due_cbs m.timer_at now m.timers ≡ due_cbs at now rest
  count : count_due m.timer_at now m.timers ≡ count_due at now rest
  ordered : IsOrdered m.timer_at m.timers
  periods : HasPeriods m.timer_at m.timers

module _ (now p : ℕ) (rest : List ℕ) (m : TimerManager) where
  abbrev at : ℕ → Timer
  at = m.timer_at

  absent : IsOrdered at (p ∷ rest) → All (λ q. p ≢ q) rest
  absent o = All-mono _ _ rest (before-ne at p) o.0

  update-HasPeriods :
      (t : Timer) → All (λ q. p ≢ q) rest → HasPeriods at rest → HasPeriods (update at p t) rest
  update-HasPeriods t d h =
      All-zip (λ q. p ≢ q) (λ q. ((at q).recurring ≡ false) ⊎ (0 < (at q).ms)) _ rest
        (λ q e k. ground arith) d h

  -- Whatever the timer at the front is, the set stays in order.
  pub front-IsOrdered :
      IsOrdered at (p ∷ rest)
      → IsOrdered (expire_front now p rest m).timer_at (expire_front now p rest m).timers
  unfolding expire_front
  front-IsOrdered o = elim (Bool-cases (at p).recurring) [
    | inr once ↦ rw once (update-IsOrdered at p _ rest (absent o) o.1)
    | inl again ↦ rw again (insert-IsOrdered _ p rest (update-IsOrdered at p _ rest (absent o) o.1))
  ]

  front-Served :
      IsOrdered at (p ∷ rest)
      → HasPeriods at (p ∷ rest)
      → Served at now rest (expire_front now p rest m)
  unfolding expire_front
  front-Served o h = elim (Bool-cases (at p).recurring) [
    | inr once ↦
        let t : Timer = record (at p) { recurring = false; cb = none } in
        let (same, count) = update_due at now p t rest (absent o) in
        rw once (record {
          cbs = same;
          count = count;
          ordered = update-IsOrdered at p t rest (absent o) o.1;
          periods = update-HasPeriods t (absent o) h.1;
        })
    | inl again ↦
        let t : Timer = record (at p) { recurring = true; next = now + tick_ms (at p).ms } in
        let at' = update at p t in
        let later : now < (at' p).next = ground (arith, h.0) in
        let (same, count) = update_due at now p t rest (absent o) in
        let (same', count') = insert_later at' now p rest later in
        rw again (record {
          cbs = same' ∙ same;
          count = count' ∙ count;
          ordered = insert-IsOrdered at' p rest (update-IsOrdered at p t rest (absent o) o.1);
          periods =
              insert-All at' (λ q. ((at' q).recurring ≡ false) ⊎ (0 < (at' q).ms)) p rest
                (ground (arith, h.0)) (update-HasPeriods t (absent o) h.1);
        })
  ]

-- What the loop has to reach from a set: the callbacks due, in order, and a set of later timers.
pub record Ends (at : ℕ → Timer) (now : ℕ) (timers : List ℕ) (cbs : List (Option ℕ))
    (r : Option (TimerManager × List (Option ℕ))) : Type 0 where
  pub after : TimerManager
  pub ends : r ≡ some (after, cbs ++ due_cbs at now timers)
  pub ordered : IsOrdered after.timer_at after.timers
  pub later : AllLater after.timer_at now after.timers

module _ (fuel : ℕ) (rollover : Bool) (now : ℕ) (m : TimerManager) (cbs : List (Option ℕ)) where
  expire_loop_nil : m.timers ≡ [] → expire_loop (suc fuel) rollover now m cbs ≡ some (m, cbs)
  unfolding expire_loop
  expire_loop_nil e = ground arith

  pub expire_loop_due :
      (p : ℕ) (rest : List ℕ)
      → m.timers ≡ p ∷ rest
      → is_due rollover now (m.timer_at p) ≡ true
      → expire_loop (suc fuel) rollover now m cbs
        ≡ expire_loop fuel rollover now (expire_front now p rest m) (cbs ++ (m.timer_at p).cb ∷ [])
  unfolding expire_loop
  expire_loop_due p rest e d = ground arith

  expire_loop_later :
      (p : ℕ) (rest : List ℕ)
      → m.timers ≡ p ∷ rest
      → is_due rollover now (m.timer_at p) ≡ false
      → expire_loop (suc fuel) rollover now m cbs ≡ some (m, cbs)
  unfolding expire_loop
  expire_loop_later p rest e d = ground arith

module _ (now : ℕ) where
  -- Nothing is due: the loop ends at once.
  stops_at_once :
      (m : TimerManager) (timers : List ℕ) (cbs : List (Option ℕ))
      (r : Option (TimerManager × List (Option ℕ)))
      → m.timers ≡ timers
      → IsOrdered m.timer_at timers
      → AllLater m.timer_at now timers
      → r ≡ some (m, cbs)
      → Ends m.timer_at now timers cbs r
  stops_at_once m timers cbs r e o l q = record {
    after = m;
    ends = rw ((later_due m.timer_at now timers l).0, append-nil) q;
    ordered = subst (IsOrdered m.timer_at) (sym e) o;
    later = subst (AllLater m.timer_at now) (sym e) l;
  }

  -- The first timer is due: the rest of the loop serves the rest of the set.
  goes_on :
      (at : ℕ → Timer) (p : ℕ) (rest : List ℕ) (m : TimerManager) (cbs : List (Option ℕ))
      (r : Option (TimerManager × List (Option ℕ)))
      → leb (at p).next now ≡ true
      → due_cbs m.timer_at now m.timers ≡ due_cbs at now rest
      → Ends m.timer_at now m.timers (cbs ++ (at p).cb ∷ []) r
      → Ends at now (p ∷ rest) cbs r
  unfolding due_cbs
  goes_on at p rest m cbs r d same x = record {
    after = x.after;
    ends = rw d (
        x.ends
        ∙ ap (λ l. some (x.after, l))
            (append_assoc cbs ((at p).cb ∷ []) _ ∙ ap (λ l. cbs ++ (at p).cb ∷ l) same));
    ordered = x.ordered;
    later = x.later;
  }

  pub expire_loop-Ends :
      (fuel : ℕ) (timers : List ℕ) (m : TimerManager) (cbs : List (Option ℕ))
      → m.timers ≡ timers
      → IsOrdered m.timer_at timers
      → HasPeriods m.timer_at timers
      → count_due m.timer_at now timers < fuel
      → Ends m.timer_at now timers cbs (expire_loop fuel false now m cbs)
  unfolding is_due count_due
  expire_loop-Ends zero timers m cbs e o h f = absurd (omega arith)
  expire_loop-Ends (suc fuel) [] m cbs e o h f =
      stops_at_once m [] cbs _ e o tt (expire_loop_nil fuel false now m cbs e)
  expire_loop-Ends (suc fuel) (p ∷ rest) m cbs e o h f =
      elim (Bool-cases (leb (m.timer_at p).next now)) [
        | inr d ↦
            stops_at_once m (p ∷ rest) cbs _ e o
              (front_later m.timer_at now p rest o (ground arith))
              (expire_loop_later fuel false now m cbs p rest e d)
        | inl d ↦
            let next = expire_front now p rest m in
            let served = front-Served now p rest m o h in
            subst (Ends m.timer_at now (p ∷ rest) cbs)
              (sym (expire_loop_due fuel false now m cbs p rest e d))
              (goes_on m.timer_at p rest next cbs _ d served.cbs (
                expire_loop-Ends fuel next.timers next (cbs ++ (m.timer_at p).cb ∷ []) refl
                  served.ordered served.periods (ground (arith, served.count))))
      ]
