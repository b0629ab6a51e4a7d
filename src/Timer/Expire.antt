-- ===== src/Timer/Expire.antt =====
-- src/timer.cpp: `listExpiredCb` and `detectClockRollover`.
use coroutine_lib.Prelude.{
  ℕ, zero, suc, ◌+◌, ◌-◌, ◌*◌, Bool, ◌||◌, Option, none, some, List, [], ◌∷◌, ◌++◌, ltb, leb,
  if◌then◌else◌,
}
use coroutine_lib.Timer.{Timer, TimerManager, tick_ms, update, set_insert}

-- `TimerManager::detectClockRollover`: the clock went back by more than an hour.
unfoldable pub detect_clock_rollover : ℕ → TimerManager → TimerManager × Bool
detect_clock_rollover now m =
    (record m { previous_time = now }, ltb now (m.previous_time - tick_ms (60 * 60 * 1000)))

-- The body of the loop of `listExpiredCb`, for the timer at the front of the set.
unfoldable pub expire_front : ℕ → ℕ → List ℕ → TimerManager → TimerManager
expire_front now p rest m =
    let t = m.timer_at p in
    if t.recurring
    then (let at = update m.timer_at p (record t { next = now + tick_ms t.ms }) in
        record m { timer_at = at; timers = set_insert at p rest })
    else record m { timer_at = update m.timer_at p (record t { cb = none }); timers = rest }

-- Whether the loop goes on with the timer at the front.
unfoldable pub is_due : Bool → ℕ → Timer → Bool
is_due rollover now t = rollover || leb t.next now

-- The loop, on fuel; `none` means that the fuel ran out.
unfoldable pub expire_loop :
    ℕ → Bool → ℕ → TimerManager → List (Option ℕ) → Option (TimerManager × List (Option ℕ))
expire_loop zero rollover now m cbs = none
expire_loop (suc fuel) rollover now m cbs = elim m.timers [
  | [] ↦ some (m, cbs)
  | p ∷ rest ↦
      let more =
        expire_loop fuel rollover now (expire_front now p rest m) (cbs ++ (m.timer_at p).cb ∷ []) in
      if is_due rollover now (m.timer_at p) then more else some (m, cbs)
]

-- `TimerManager::listExpiredCb`; the clock is read before the lock is taken, and once more in
-- `detectClockRollover`.
unfoldable pub list_expired_cb : ℕ → ℕ → ℕ → TimerManager → Option (TimerManager × List (Option ℕ))
list_expired_cb fuel now later m =
    let (m', rollover) = detect_clock_rollover later m in expire_loop fuel rollover now m' []
