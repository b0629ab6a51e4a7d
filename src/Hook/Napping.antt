-- ===== src/Hook/Napping.antt =====
-- src/hook.cpp, `sleep`, `usleep` and `nanosleep`: when the fiber is woken.
use coroutine_lib.Prelude.{ℕ, ◌+◌, ◌≤◌, ◌<◌, ◌≡◌, false, Option, some, List, ◌∷◌, ◌++◌, ◌⊎◌}
use coroutine_lib.Timer.{Timer, TimerManager, tick_ms, update}
use coroutine_lib.Timer.Manager.{add_timer, new_timer}
use coroutine_lib.Timer.Expire.{list_expired_cb}
use coroutine_lib.Timer.Due.{due_cbs}
use coroutine_lib.Timer.Laws.{IsManaged}
use coroutine_lib.Hook.{World}
use coroutine_lib.Hook.Sleep.{
  Nap, asleep, sleep, usleep, nanosleep, sleep_ms, usleep_ms, nanosleep_ms,
}

-- A list with one item more than another.
abbrev pub IsWith {ℓ} : {A : Type ℓ} → A → List A → List A → Type ℓ
IsWith {A} x ys zs = (l r : List A) × (ys ≡ l ++ x ∷ r) × (zs ≡ l ++ r)

module _ (ms cb now : ℕ) (m : TimerManager) (v : IsManaged m) where
  napping : TimerManager
  napping = (add_timer ms (some cb) false now m).manager

  abbrev at : ℕ → Timer
  at = update m.timer_at m.fresh (new_timer ms (some cb) false now)

-- The three calls, and how long each sleeps.
pub data NapCall : Type 0 where
  sleeps usleeps : ℕ → NapCall
  nanosleeps : ℕ → ℕ → NapCall

abbrev pub run_nap : NapCall → ℕ → ℕ → World → Nap
run_nap (sleeps seconds) = sleep seconds
run_nap (usleeps usec) = usleep usec
run_nap (nanosleeps sec nsec) = nanosleep sec nsec

abbrev pub nap_ms : NapCall → ℕ
nap_ms (sleeps seconds) = sleep_ms seconds
nap_ms (usleeps usec) = usleep_ms usec
nap_ms (nanosleeps sec nsec) = nanosleep_ms sec nsec

-- The state in which the fiber sleeps, and what the timers give when they are asked at a time.
pub record Naps (call : NapCall) (cb now fuel time later : ℕ) (w : World) : Type 0 where
  pub timer : ℕ
  pub after : World
  pub rest : TimerManager
  pub cbs : List (Option ℕ)
  pub yields : run_nap call cb now w ≡ asleep timer after
  pub expires : list_expired_cb fuel time later after.io.timers ≡ some (rest, cbs)
  pub wakes :
      ((now + tick_ms (nap_ms call) ≤ time)
        × IsWith (some cb) cbs (due_cbs w.io.timers.timer_at time w.io.timers.timers))
      ⊎ ((time < now + tick_ms (nap_ms call))
          × (cbs ≡ due_cbs w.io.timers.timer_at time w.io.timers.timers))
