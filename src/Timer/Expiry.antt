-- ===== src/Timer/Expiry.antt =====
-- src/timer.cpp, `listExpiredCb`, called with a clock that has not gone back.
use coroutine_lib.Prelude.{ℕ, ◌+◌, ◌-◌, ◌≤◌, ◌<◌, ◌≡◌, refl, false, [], some, arith, ltb, length}
use coroutine_lib.Timer.{TimerManager, tick_ms}
use coroutine_lib.Timer.Expire.{list_expired_cb, detect_clock_rollover}
use coroutine_lib.Timer.Order.{IsOrdered}
use coroutine_lib.Timer.Due.{due_cbs, AllLater, HasPeriods, expire_loop-Ends, count_due-le}

-- The clock of `detectClockRollover` shows no more than an hour less than at the last call.
abbrev pub KeepsTime : ℕ → TimerManager → Type 0
KeepsTime later m = m.previous_time ≤ later + tick_ms 3600000

-- If the set is ordered, the clock has not gone back by more than an hour and no recurring timer
-- has the period 0, `listExpiredCb` ends, within one round more than there are timers. It returns
-- the callbacks of exactly the timers that are due, the earliest first, and leaves an ordered set
-- of timers that are all later than now.
pub list_expired_cb_due :
    (fuel now later : ℕ) (m : TimerManager)
    → IsOrdered m.timer_at m.timers
    → HasPeriods m.timer_at m.timers
    → KeepsTime later m
    → length m.timers < fuel
    → (after : TimerManager) × (list_expired_cb fuel now later m
        ≡ some (after, due_cbs m.timer_at now m.timers))
      × IsOrdered after.timer_at after.timers
      × AllLater after.timer_at now after.timers
unfolding list_expired_cb detect_clock_rollover
list_expired_cb_due fuel now later m o h k f =
    let m' : TimerManager = record m { previous_time = later } in
    let on_time : ltb later (m.previous_time - tick_ms 3600000) ≡ false = ground arith in
    let e =
      expire_loop-Ends now fuel m.timers m' [] refl o h
        (omega (arith, count_due-le m.timer_at now m.timers)) in
    (e.after, rw on_time e.ends, e.ordered, e.later)
