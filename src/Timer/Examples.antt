-- ===== src/Timer/Examples.antt =====
-- A manager with two timers: tests of its methods and instances of the theorems about them.
use coroutine_lib.Prelude.{
  ℕ, ◌≡◌, refl, ◌⊎◌, true, false, Option, none, some, List, [], ◌∷◌, arith, ◌==◌, if◌then◌else◌,
  u64_max,
}
use coroutine_lib.Timer.{Timer, TimerManager, comes_before, set_find, same_key}
use coroutine_lib.Timer.Manager.{cancel, reset_take, reset_put, get_next_timer}
use coroutine_lib.Timer.Expire.{
  list_expired_cb, expire_loop, expire_front, is_due, detect_clock_rollover,
}
use coroutine_lib.Timer.Order.{IsOrdered}
use coroutine_lib.Timer.Due.{due_cbs, AllLater}
use coroutine_lib.Timer.Expiry.{list_expired_cb_due}
use coroutine_lib.Timer.Endless.{list_expired_cb_endless, comes_back}
use coroutine_lib.Timer.Laws.{IsManaged, reset_races_cancel}
use coroutine_lib.Timer.Schedule.{Fits, get_next_timer-Fits}

-- Timer 0 rings every 2 ms, first at 3 ms; timer 1 rings once, at 1 ms.
abbrev two_timers : ℕ → Timer
two_timers p =
    if p == 0
    then record { recurring = true; ms = 2; next = 3000000; cb = some 10 }
    else record { recurring = false; ms = 1; next = 1000000; cb = some 11 }

abbrev manager : TimerManager
manager = record {
  timer_at = two_timers;
  fresh = 2;
  timers = 1 ∷ 0 ∷ [];
  tickled = false;
  previous_time = 3600000000001;
}

manager-IsOrdered : IsOrdered two_timers (1 ∷ 0 ∷ [])
unfolding comes_before
manager-IsOrdered = ((refl, tt), (tt, tt))

manager-IsManaged : IsManaged manager
manager-IsManaged = record { ordered = manager-IsOrdered; made = omega arith }

abbrev served : Option (List (Option ℕ))
served = elim (list_expired_cb 3 1500000 3600000000002 manager) [
  | none ↦ none
  | some (m, cbs) ↦ some cbs
]

served-once : served ≡ some (some 11 ∷ [])
unfolding list_expired_cb expire_loop expire_front is_due detect_clock_rollover
served-once = refl

list_expired_cb_due_example :
    (after : TimerManager) × (list_expired_cb 3 1500000 3600000000002 manager
      ≡ some (after, due_cbs two_timers 1500000 (1 ∷ 0 ∷ [])))
    × IsOrdered after.timer_at after.timers
    × AllLater after.timer_at 1500000 after.timers
list_expired_cb_due_example =
    list_expired_cb_due 3 1500000 3600000000002 manager manager-IsOrdered (omega arith)
      (omega arith) (omega arith)

-- The clock is set back to 0, two hours after the last reading.
abbrev set_back : TimerManager
set_back = record manager { previous_time = 7200000000000 }

list_expired_cb_endless_example : list_expired_cb 1000 5 5 set_back ≡ none
unfolding comes_back
list_expired_cb_endless_example = list_expired_cb_endless 1000 5 5 set_back manager-IsOrdered refl

reset_races_cancel_example :
    let taken = (reset_take 1 manager).0 in
    let back = (reset_put 1 9 true 50 (cancel 1 taken).0).0 in
    ((reset_take 1 manager).1 ≡ true)
    × ((cancel 1 taken).1 ≡ true)
    × (set_find back.timer_at 1 back.timers ≡ true)
    × ((back.timer_at 1).cb ≡ none)
unfolding set_find same_key comes_before
reset_races_cancel_example = reset_races_cancel 1 manager 9 true 50 refl refl

get_next_timer-Fits_example :
    ((◌≡◌ {A = List ℕ} (1 ∷ 0 ∷ []) []) × ((get_next_timer 400000 manager).1 ≡ u64_max))
    ⊎ Fits two_timers 400000 (1 ∷ 0 ∷ []) (get_next_timer 400000 manager).1
get_next_timer-Fits_example = get_next_timer-Fits 400000 manager manager-IsOrdered
