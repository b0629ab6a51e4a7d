-- ===== src/Timer/Manager.antt =====
-- src/timer.cpp: the methods of `Timer`, and `addTimer` and `getNextTimer` of `TimerManager`.
use coroutine_lib.Prelude.{
  ℕ, ◌+◌, ◌-◌, ◌/◌, Bool, true, false, ◌&&◌, not, Option, none, List, [], ◌∷◌, leb, ◌==◌,
  if◌then◌else◌, is_some, is_empty, u64_max,
}
use coroutine_lib.Timer.{
  Timer, TimerManager, tick_ms, update, set_find, set_erase, set_insert, is_first,
}

-- The constructor `Timer::Timer`.
unfoldable pub new_timer : ℕ → Option ℕ → Bool → ℕ → Timer
new_timer ms cb recurring now = record {
  recurring = recurring;
  ms = ms;
  next = now + tick_ms ms;
  cb = cb;
}

unfoldable pub new_manager : (ℕ → Timer) → ℕ → TimerManager
new_manager memory now = record {
  timer_at = memory;
  fresh = 0;
  timers = [];
  tickled = false;
  previous_time = now;
}

-- `Timer::cancel`
unfoldable pub cancel : ℕ → TimerManager → TimerManager × Bool
cancel p m =
    if not (is_some (m.timer_at p).cb)
    then (m, false)
    else let at = update m.timer_at p (record (m.timer_at p) { cb = none }) in
      let timers = if set_find at p m.timers then set_erase at p m.timers else m.timers in
      (record m { timer_at = at; timers = timers }, true)

-- `Timer::refresh`
unfoldable pub refresh : ℕ → ℕ → TimerManager → TimerManager × Bool
refresh p now m =
    if not (is_some (m.timer_at p).cb)
    then (m, false)
    else if not (set_find m.timer_at p m.timers)
    then (m, false)
    else let rest = set_erase m.timer_at p m.timers in
      let t = m.timer_at p in
      let at = update m.timer_at p (record t { next = now + tick_ms t.ms }) in
      (record m { timer_at = at; timers = set_insert at p rest }, true)

-- The private `TimerManager::addTimer`; the result is `at_front`, whether
-- `onTimerInsertedAtFront` is called.
unfoldable pub insert_timer : ℕ → TimerManager → TimerManager × Bool
insert_timer p m =
    let timers = set_insert m.timer_at p m.timers in
    let at_front = is_first p timers && not m.tickled in
    (record m { timers = timers; tickled = if at_front then true else m.tickled }, at_front)

-- The public `TimerManager::addTimer`.
pub record Added : Type 0 where
  pub timer : ℕ
  pub manager : TimerManager
  pub at_front : Bool

unfoldable pub add_timer : ℕ → Option ℕ → Bool → ℕ → TimerManager → Added
unfolding new_timer
add_timer ms cb recurring now m =
    let p = m.fresh in
    let at = update m.timer_at p (new_timer ms cb recurring now) in
    let (m', at_front) = insert_timer p (record m { timer_at = at; fresh = p + 1 }) in
    record { timer = p; manager = m'; at_front = at_front }

-- `Timer::reset`: the block under the lock takes the timer out of the set,
unfoldable pub reset_take : ℕ → TimerManager → TimerManager × Bool
reset_take p m =
    if not (is_some (m.timer_at p).cb)
    then (m, false)
    else if not (set_find m.timer_at p m.timers)
    then (m, false)
    else (record m { timers = set_erase m.timer_at p m.timers }, true)

-- and the rest, with the lock released, changes the timer and puts it back.
unfoldable pub reset_put : ℕ → ℕ → Bool → ℕ → TimerManager → TimerManager × Bool
reset_put p ms from_now now m =
    let t = m.timer_at p in
    let start = if from_now then now else t.next - tick_ms t.ms in
    let at = update m.timer_at p (record t { ms = ms; next = start + tick_ms ms }) in
    insert_timer p (record m { timer_at = at })

unfoldable pub reset : ℕ → ℕ → Bool → ℕ → TimerManager → TimerManager × Bool
unfolding reset_take reset_put
reset p ms from_now now m =
    if ms == (m.timer_at p).ms && not from_now
    then (m, true)
    else let (m', found) = reset_take p m in
      if found then ((reset_put p ms from_now now m').0, true) else (m', false)

-- `OnTimer`: whether the callback of a condition timer runs, by what `weak_cond.lock()` gives.
unfoldable pub on_timer : Bool → Option ℕ → Option ℕ
on_timer alive cb = if alive then cb else none

-- The milliseconds to the first timer of the set.
unfoldable pub next_wait : (ℕ → Timer) → ℕ → List ℕ → ℕ
next_wait at now [] = u64_max
next_wait at now (p ∷ ps) =
    let time = (at p).next in if leb time now then 0 else (time - now) / 1000000

-- `TimerManager::getNextTimer`
unfoldable pub get_next_timer : ℕ → TimerManager → TimerManager × ℕ
unfolding next_wait
get_next_timer now m = (record m { tickled = false }, next_wait m.timer_at now m.timers)

unfoldable pub has_timer : TimerManager → Bool
has_timer m = not (is_empty m.timers)
