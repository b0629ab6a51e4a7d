-- ===== src/Hook/Sleep.antt =====
-- src/hook.cpp: `sleep`, `usleep` and `nanosleep`.
use coroutine_lib.Prelude.{ℕ, ◌+◌, ◌*◌, ◌/◌, ◌%◌, ◌^◌, not, none, some, if◌then◌else◌, u64_mod}
use coroutine_lib.IoManager.{IoManager}
use coroutine_lib.IoManager.Contexts.{schedule_lock}
use coroutine_lib.Hook.{World, start_timer}

-- The milliseconds: of `unsigned int` in `sleep`, of `uint64_t` in `nanosleep`.
abbrev pub sleep_ms : ℕ → ℕ
sleep_ms seconds = seconds * 1000 % 2 ^ 32

abbrev pub usleep_ms : ℕ → ℕ
usleep_ms usec = usec / 1000

abbrev pub nanosleep_ms : ℕ → ℕ → ℕ
nanosleep_ms sec nsec = (sec * 1000 + nsec / 1000000) % u64_mod

-- The original function is called; or the fiber yields, with a timer; or a null pointer is used.
pub data Nap : Type 0 where
  original : Nap
  asleep : ℕ → World → Nap
  crashed : Nap

-- A timer, whose callback has the number `cb`, and the `yield`.
unfoldable pub start_nap : ℕ → ℕ → ℕ → World → Nap
start_nap ms cb now w =
    let (io, timer) = start_timer ms cb now w.io in asleep timer (record w { io = io })

-- `sleep` and `usleep`, which do not ask whether there is an I/O manager.
unfoldable pub sleep : ℕ → ℕ → ℕ → World → Nap
unfolding start_nap
sleep seconds cb now w =
    if not w.hook_enable
    then original
    else if not w.in_manager
    then crashed
    else start_nap (sleep_ms seconds) cb now w

unfoldable pub usleep : ℕ → ℕ → ℕ → World → Nap
unfolding start_nap
usleep usec cb now w =
    if not w.hook_enable
    then original
    else if not w.in_manager
    then crashed
    else start_nap (usleep_ms usec) cb now w

unfoldable pub nanosleep : ℕ → ℕ → ℕ → ℕ → World → Nap
unfolding start_nap
nanosleep sec nsec cb now w =
    if not w.hook_enable
    then original
    else if not w.in_manager
    then original
    else start_nap (nanosleep_ms sec nsec) cb now w

-- The callback of the three: `iom->scheduleLock(fiber)`.
unfoldable pub wake : ℕ → IoManager → IoManager
wake fiber io = schedule_lock (some fiber) none io
