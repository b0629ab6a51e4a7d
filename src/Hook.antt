-- ===== src/Hook.antt =====
-- src/hook.cpp: what the hooked calls share, and `do_io`, which all that read and write go through.
-- The original functions are code of the C library: what they answer is a list, one answer for each
-- call, in order. The frame of a call that has yielded is the request, the timeout, the timer and
-- the answers to come; other threads may change the `World` before it resumes.
pub mod Suspend
pub mod Blocking
pub mod Returns
pub mod Timeout
pub mod Early
pub mod Control
pub mod Flags
pub mod Close
pub mod Sleep
pub mod Napping
pub mod Connect
pub mod Connecting
mod Examples
use coroutine_lib.Prelude.{
  ℕ, ◌+◌, Bool, true, false, ◌&&◌, ◌||◌, not, Option, none, some, List, [], ◌∷◌, ◌==◌,
  if◌then◌else◌, u64_max,
}
use coroutine_lib.Prelude.Int.{ℤ, minus_one, int_eq}
use coroutine_lib.Fiber.{State}
use coroutine_lib.Timer.Manager.{add_timer, cancel}
use coroutine_lib.FdManager.{FdCtx, FdManager, invalid, get, get_timeout}
use coroutine_lib.IoManager.{Event, IoManager, Kernel}
use coroutine_lib.IoManager.Operations.{add_event, cancel_event}
use coroutine_lib.IoManager.Idle.{on_timer_inserted_at_front}

-- The values of Linux.
abbrev pub eintr : ℕ
eintr = 4

abbrev pub ebadf : ℕ
ebadf = 9

abbrev pub eagain : ℕ
eagain = 11

abbrev pub etimedout : ℕ
etimedout = 110

abbrev pub einprogress : ℕ
einprogress = 115

-- What an original function returns, and `errno` after it.
pub record Answer : Type 0 where
  pub value : ℤ
  pub errno : ℕ

-- What a hooked call returns: the answer of the original, or -1, for which the hook sets `errno` or
-- leaves it as it is, or a value of its own.
pub data Result : Type 0 where
  passed : Answer → Result
  failed : Option ℕ → Result
  gives : ℤ → Result

abbrev pub fails_with : ℕ → Answer → Bool
fails_with e a = int_eq a.value minus_one && a.errno == e

-- `cancelled` is the field of the `timer_info` of the call, 0 at first.
pub record World : Type 0 where
  pub hook_enable : Bool
  pub fds : FdManager
  pub in_manager : Bool  -- whether `IOManager::GetThis()` is not null
  pub io : IoManager
  pub cancelled : ℕ

-- The arguments, the calling fiber and the number of the closure that is the timer's callback.
pub record Request : Type 0 where
  pub fd : ℤ
  pub event : Event
  pub is_recv : Bool  -- SO_RCVTIMEO, not SO_SNDTIMEO
  pub caller : ℕ × State
  pub on_timeout : ℕ

-- Where a call stands: it returned; its fiber yielded; an original call has no answer yet; an
-- assertion failed.
pub data Pause : Type 0 where
  returned : Result → World → Pause
  yielded : Option ℕ → List Answer → World → Pause
  unanswered : Pause
  aborted : Pause

-- `FdMgr::GetInstance()->get(fd)`: the address of the context, and the context.
unfoldable pub find_address : ℤ → FdManager → Option ℕ
find_address fd m = elim (get (record { kind = invalid; nonblock = false }) fd false m) [
  | none ↦ none
  | some (m', slot) ↦ slot
]

unfoldable pub find_ctx : ℤ → FdManager → Option FdCtx
unfolding find_address
find_ctx fd m = elim (find_address fd m) [ none ↦ none | some p ↦ some (m.ctx_at p) ]

-- A call of the original.
unfoldable pub call_original : List Answer → World → Pause
call_original [] w = unanswered
call_original (a ∷ answers) w = returned (passed a) w

-- The calls of the original until one is not interrupted by a signal.
unfoldable pub call_through : List Answer → Option (Answer × List Answer)
call_through [] = none
call_through (a ∷ answers) =
    let later = call_through answers in if fails_with eintr a then later else some (a, answers)

-- `addTimer` and `addConditionTimer` as an `IOManager` calls them: a timer at the front tickles.
unfoldable pub start_timer : ℕ → ℕ → ℕ → IoManager → IoManager × ℕ
start_timer ms cb now io =
    let added = add_timer ms (some cb) false now io.timers in
    let io' = record io { timers = added.manager } in
    (if added.at_front then on_timer_inserted_at_front io' else io', added.timer)

-- `if(timer) timer->cancel()`
unfoldable pub stop_timer : Option ℕ → IoManager → IoManager
stop_timer none io = io
stop_timer (some p) io = record io { timers = (cancel p io.timers).0 }

-- The timer, if there is a timeout.
unfoldable pub start_timeout : ℕ → Request → ℕ → World → IoManager × Option ℕ
unfolding start_timer
start_timeout timeout r now w =
    if timeout == u64_max
    then (w.io, none)
    else let (io, p) = start_timer timeout r.on_timeout now w.io in (io, some p)

-- From the timer on to the `yield`.
unfoldable pub suspend : Kernel → Request → ℕ → ℕ → List Answer → World → Pause
unfolding start_timeout stop_timer
suspend kernel r timeout now answers w =
    let (io, timer) = start_timeout timeout r now w in
    elim (add_event kernel r.fd r.event none r.caller io) [
      | none ↦ aborted
      | some (io', false) ↦ returned (failed none) (record w { io = stop_timer timer io' })
      | some (io', true) ↦ yielded timer answers (record w { io = io' })
    ]

-- From `retry` on.
unfoldable pub try_io : Kernel → Request → ℕ → ℕ → List Answer → World → Pause
unfolding call_through suspend call_original
try_io kernel r timeout now answers w = elim (call_through answers) [
  | none ↦ unanswered
  | some (a, rest) ↦
      if not (fails_with eagain a)
      then returned (passed a) w
      else if not w.in_manager
      then call_original rest w
      else suspend kernel r timeout now rest w
]

-- `do_io` up to its first `yield`.
unfoldable pub do_io : Kernel → Request → ℕ → List Answer → World → Pause
unfolding find_ctx try_io
do_io kernel r now answers w =
    if not w.hook_enable then call_original answers w else elim (find_ctx r.fd w.fds) [
      | none ↦ call_original answers w
      | some ctx ↦
          let timeout = get_timeout r.is_recv ctx in
          if ctx.is_closed
          then returned (failed (some ebadf)) w
          else if not ctx.is_socket || ctx.user_nonblock
          then call_original answers w
          else try_io kernel r timeout now answers (record w { cancelled = 0 })
    ]

-- From the `yield` on.
unfoldable pub resume_io : Kernel → Request → ℕ → ℕ → Option ℕ → List Answer → World → Pause
unfolding try_io stop_timer
resume_io kernel r timeout now timer answers w =
    let w' = record w { io = stop_timer timer w.io } in
    if w'.cancelled == etimedout
    then returned (failed (some w'.cancelled)) w'
    else try_io kernel r timeout now answers w'

-- The callback of the timer: `alive` tells whether the call is still running, which the condition
-- of the timer and the callback itself ask. It is `none` if an assertion fails.
unfoldable pub on_timeout : Kernel → ℤ → Event → Bool → World → Option World
on_timeout kernel fd event alive w =
    if not alive || not (w.cancelled == 0)
    then some w
    else elim (cancel_event kernel fd event w.io) [
      | none ↦ none
      | some (io, _) ↦ some (record w { cancelled = etimedout; io = io })
    ]
