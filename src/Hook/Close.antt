-- ===== src/Hook/Close.antt =====
-- src/hook.cpp, `close`: what it leaves of a descriptor.
use coroutine_lib.Prelude.{ℕ, ◌≡◌, true, none, some}
use coroutine_lib.Prelude.Int.{pos}
use coroutine_lib.FdManager.{FdManager, del}
use coroutine_lib.IoManager.{Kernel}
use coroutine_lib.IoManager.Pending.{IsConsistent}
use coroutine_lib.Hook.{World, find_address, find_ctx}
use coroutine_lib.Hook.Control.{put_ctx, close}

-- What `close` leaves of the descriptors.
abbrev closing : ℕ → ℕ → FdManager → FdManager
closing n p m = del (pos n) (put_ctx p (record (m.ctx_at p) { is_closed = true }) m)

-- What the hooked `close` of descriptor `n`, with its context at `p`, leaves.
pub record IsForgotten (kernel : Kernel) (n p other : ℕ) (w after : World) : Type 0 where
  pub ends : close kernel (pos n) w ≡ some after
  pub unknown : find_ctx (pos n) after.fds ≡ none
  pub closed : (after.fds.ctx_at p).is_closed ≡ true
  pub others : find_address (pos other) after.fds ≡ find_address (pos other) w.fds
  pub consistent : IsConsistent after.io
