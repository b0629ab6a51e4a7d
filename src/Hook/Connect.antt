-- ===== src/Hook/Connect.antt =====
-- src/hook.cpp: `connect_with_timeout` and `connect`.
use coroutine_lib.Prelude.{ℕ, not, Option, none, some, List, [], ◌∷◌, ◌==◌, if◌then◌else◌, u64_max}
use coroutine_lib.Prelude.Int.{pos, minus_one, int_eq}
use coroutine_lib.IoManager.{Kernel}
use coroutine_lib.Hook.{
  Answer, passed, failed, gives, World, Request, Pause, returned, unanswered, ebadf, einprogress,
  fails_with, find_ctx, call_original, stop_timer, suspend,
}

-- From the first call of `connect_f` on, by its answer.
unfoldable pub connect_after : Kernel → Request → ℕ → ℕ → Answer → List Answer → World → Pause
connect_after kernel r timeout_ms now a rest w =
    if int_eq a.value (pos 0)
    then returned (gives (pos 0)) w
    else if not (fails_with einprogress a)
    then returned (passed a) w
    else if not w.in_manager
    then call_original rest w
    else suspend kernel r timeout_ms now rest (record w { cancelled = 0 })

-- `connect_with_timeout` up to its `yield`, for a request with the event WRITE.
unfoldable pub connect_with_timeout : Kernel → Request → ℕ → ℕ → List Answer → World → Pause
unfolding connect_after
connect_with_timeout kernel r timeout_ms now answers w =
    if not w.hook_enable then call_original answers w else elim (find_ctx r.fd w.fds) [
      | none ↦ returned (failed (some ebadf)) w
      | some ctx ↦
          if ctx.is_closed
          then returned (failed (some ebadf)) w
          else if not ctx.is_socket
          then call_original answers w
          else if ctx.user_nonblock
          then call_original answers w
          else elim answers [
            | [] ↦ unanswered
            | a ∷ rest ↦ connect_after kernel r timeout_ms now a rest w
          ]
    ]

-- What `getsockopt` with SO_ERROR answers, and the error that it writes.
pub record SocketError : Type 0 where
  pub answer : Answer
  pub error : ℕ

-- From the `yield` on.
unfoldable pub resume_connect : Option ℕ → SocketError → World → Pause
resume_connect timer so w =
    let w' = record w { io = stop_timer timer w.io } in
    if not (w'.cancelled == 0)
    then returned (failed (some w'.cancelled)) w'
    else if int_eq so.answer.value minus_one
    then returned (passed so.answer) w'
    else if so.error == 0
    then returned (gives (pos 0)) w'
    else returned (failed (some so.error)) w'

-- `connect`, with `s_connect_timeout`.
unfoldable pub connect : Kernel → Request → ℕ → List Answer → World → Pause
unfolding connect_with_timeout
connect kernel r = connect_with_timeout kernel r u64_max
