-- ===== src/Hook/Blocking.antt =====
-- src/hook.cpp, `do_io`: a hooked call beside the call on a blocking descriptor that it replaces.
use coroutine_lib.Prelude.{
  ℕ, ◌≡◌, Bool, true, false, not, Option, none, some, List, [], ◌∷◌, ◌==◌, if◌then◌else◌, All, map,
}
use coroutine_lib.FdManager.{FdCtx, get_timeout}
use coroutine_lib.IoManager.{Kernel}
use coroutine_lib.Hook.{
  Answer, Result, passed, failed, World, Request, Pause, returned, yielded, unanswered, aborted,
  eintr, eagain, etimedout, fails_with, find_ctx, try_io, do_io, resume_io,
}
use coroutine_lib.Hook.Suspend.{IsReady, IsServed}

-- What the call on a blocking descriptor returns: it tries again after a signal and waits when
-- there is nothing to do, and a wait ends because the descriptor is ready or, `true`, because the
-- timeout is over. It is `none` while answers or waits are missing.
abbrev pub blocking_io : List Answer → List Bool → Option Result
blocking_io [] waits = none
blocking_io (a ∷ answers) waits =
    let again = blocking_io answers waits in
    if fails_with eintr a
    then again
    else if not (fails_with eagain a)
    then some (passed a)
    else elim waits [
      | [] ↦ none
      | true ∷ later ↦ some (failed (some etimedout))
      | false ∷ later ↦ blocking_io answers later
    ]

-- The time and the state when the fiber of the call is resumed.
abbrev pub Turn : Type 0
Turn = ℕ × World

abbrev pub timed_out : Turn → Bool
timed_out t = t.1.cancelled == etimedout

abbrev pub outcome : Pause → Option Result
outcome (returned x w) = some x
outcome _ = none

-- The fiber of the call is resumed once for each turn, while it has not returned.
abbrev pub run_io : Kernel → Request → ℕ → List Turn → Pause → Pause
run_io kernel r timeout [] p = p
run_io kernel r timeout (t ∷ turns) (yielded timer answers w) =
    run_io kernel r timeout turns (resume_io kernel r timeout t.0 timer answers t.1)
run_io kernel r timeout (t ∷ turns) (returned x w) = returned x w
run_io kernel r timeout (t ∷ turns) unanswered = unanswered
run_io kernel r timeout (t ∷ turns) aborted = aborted

module _ (kernel : Kernel) (r : Request) (n timeout : ℕ) (s : IsServed kernel r n) where
  -- When the fiber is resumed in time, the descriptor has no such event any more.
  abbrev AreReady : List Turn → Type 0
  AreReady turns = All (λ t. timed_out t ≡ false → IsReady r.event n t.1) turns

  abbrev Agrees : List Answer → Type 0
  Agrees answers =
      (now : ℕ) (w : World) (turns : List Turn)
      → IsReady r.event n w
      → AreReady turns
      → outcome (run_io kernel r timeout turns (try_io kernel r timeout now answers w))
        ≡ blocking_io answers (map timed_out turns)

-- The thread has hooks, and the descriptor is known as an open socket that its user has left
-- blocking, so that the timeout of the call is the one that its context holds.
pub record IsHooked (r : Request) (timeout : ℕ) (w : World) : Type 0 where
  pub enabled : w.hook_enable ≡ true
  pub ctx : FdCtx
  pub known : find_ctx r.fd w.fds ≡ some ctx
  pub alive : ctx.is_closed ≡ false
  pub socket : ctx.is_socket ≡ true
  pub blocks : ctx.user_nonblock ≡ false
  pub limit : get_timeout r.is_recv ctx ≡ timeout

pub do_io_tries :
    (kernel : Kernel) (r : Request) (timeout now : ℕ) (answers : List Answer) (w : World)
    → IsHooked r timeout w
    → do_io kernel r now answers w
      ≡ try_io kernel r timeout now answers (record w { cancelled = 0 })
unfolding do_io
do_io_tries kernel r timeout now answers w h =
    simp (do_io, h.enabled, h.known, h.limit, h.alive, h.socket, h.blocks)
