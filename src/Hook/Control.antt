-- ===== src/Hook/Control.antt =====
-- src/hook.cpp: `fcntl`, `ioctl`, `setsockopt`, `socket`, `accept` and `close`.
-- An `int` of flags is a number below 2 ^ 32, so that -1 is 2 ^ 32 - 1, and O_NONBLOCK is its bit of
-- value 2048.
use coroutine_lib.Prelude.{
  ℕ, ◌+◌, ◌-◌, ◌*◌, ◌/◌, ◌%◌, Bool, true, false, ◌||◌, not, Option, none, some, ◌==◌, if◌then◌else◌,
  u64_mod,
}
use coroutine_lib.Prelude.Int.{ℤ, pos, negsuc, minus_one, int_eq}
use coroutine_lib.FdManager.{FdCtx, FdManager, Descriptor, get, del, set_timeout}
use coroutine_lib.Fiber.{State}
use coroutine_lib.IoManager.{read_event, write_event, Kernel}
use coroutine_lib.IoManager.Operations.{cancel_all}
use coroutine_lib.Hook.{passed, World, Request, Pause, returned, aborted, find_address}

abbrev pub nonblock_bit : ℕ
nonblock_bit = 2048

-- `flags & O_NONBLOCK`, `flags | O_NONBLOCK` and `flags & ~O_NONBLOCK`.
abbrev pub has_flag : ℕ → Bool
has_flag flags = (flags / nonblock_bit) % 2 == 1

abbrev pub with_flag : ℕ → ℕ
with_flag flags = if has_flag flags then flags else flags + nonblock_bit

abbrev pub without_flag : ℕ → ℕ
without_flag flags = if has_flag flags then flags - nonblock_bit else flags

-- A write to the context at an address.
unfoldable pub put_ctx : ℕ → FdCtx → FdManager → FdManager
put_ctx p c m = record m { ctx_at = λ q. if p == q then c else m.ctx_at q }

-- `fcntl` with F_SETFL: the result is the argument that `fcntl_f` is called with.
unfoldable pub set_flags : ℤ → ℕ → FdManager → FdManager × ℕ
unfolding put_ctx
set_flags fd arg m = elim (find_address fd m) [
  | none ↦ (m, arg)
  | some p ↦
      let c = m.ctx_at p in
      if c.is_closed || not c.is_socket then (m, arg) else (
        put_ctx p (record c { user_nonblock = has_flag arg }) m,
        if c.sys_nonblock then with_flag arg else without_flag arg,
      )
]

-- `fcntl` with F_GETFL: what it returns when `fcntl_f` returns `flags`.
unfoldable pub get_flags : ℤ → ℕ → FdManager → ℕ
get_flags fd flags m = elim (find_address fd m) [
  | none ↦ flags
  | some p ↦
      let c = m.ctx_at p in
      if c.is_closed || not c.is_socket
      then flags
      else if c.user_nonblock
      then with_flag flags
      else without_flag flags
]

-- `ioctl`, with the value of the argument if the request is FIONBIO. `ioctl_f` is called with the
-- arguments as they are.
unfoldable pub ioctl : ℤ → Option Bool → FdManager → FdManager
unfolding put_ctx
ioctl fd none m = m
ioctl fd (some user_nonblock) m = elim (find_address fd m) [
  | none ↦ m
  | some p ↦
      let c = m.ctx_at p in
      if c.is_closed || not c.is_socket
      then m
      else put_ctx p (record c { user_nonblock = user_nonblock }) m
]

-- A `timeval` in milliseconds.
abbrev pub timeval_ms : ℕ → ℕ → ℕ
timeval_ms sec usec = (sec * 1000 + usec / 1000) % u64_mod

-- `setsockopt`, with a direction and a time for SO_RCVTIMEO and SO_SNDTIMEO at the level
-- SOL_SOCKET. `setsockopt_f` is called in any case.
unfoldable pub setsockopt : Bool → ℤ → Option (Bool × ℕ × ℕ) → FdManager → FdManager
unfolding put_ctx
setsockopt hook_enable fd none m = m
setsockopt hook_enable fd (some (is_recv, sec, usec)) m =
    if not hook_enable then m else elim (find_address fd m) [
      | none ↦ m
      | some p ↦ put_ctx p (set_timeout is_recv (timeval_ms sec usec) (m.ctx_at p)) m
    ]

-- `FdMgr::GetInstance()->get(fd, true)`, which is `none` if it writes out of bounds.
unfoldable pub make_ctx : Descriptor → ℤ → World → Option World
make_ctx d fd w = elim (get d fd true w.fds) [
  | none ↦ none
  | some (fds, slot) ↦ some (record w { fds = fds })
]

-- `socket`, from what `socket_f` returns on.
unfoldable pub socket : Descriptor → ℤ → World → Option World
unfolding make_ctx
socket d fd w =
    if not w.hook_enable then some w else if int_eq fd minus_one then some w else make_ctx d fd w

-- The calls that are `do_io` alone: the event and the timeout of each.
pub data IoCall : Type 0 where
  read readv recv recvfrom recvmsg : IoCall
  write writev send sendto sendmsg : IoCall

abbrev pub is_input : IoCall → Bool
is_input read = true
is_input readv = true
is_input recv = true
is_input recvfrom = true
is_input recvmsg = true
is_input _ = false

unfoldable pub request_of : IoCall → ℤ → ℕ × State → ℕ → Request
request_of call fd caller on_timeout = record {
  fd = fd;
  event = if is_input call then read_event else write_event;
  is_recv = is_input call;
  caller = caller;
  on_timeout = on_timeout;
}

-- `accept`, from where `do_io` stands on: a descriptor that it returned gets its context.
unfoldable pub accept : Descriptor → Pause → Pause
unfolding make_ctx
accept d (returned (passed a) w) = elim a.value [
  | negsuc n ↦ returned (passed a) w
  | pos fd ↦ elim (make_ctx d (pos fd) w) [ none ↦ aborted | some w' ↦ returned (passed a) w' ]
]
accept d p = p

-- `close`, up to the call of `close_f`.
unfoldable pub close : Kernel → ℤ → World → Option World
unfolding put_ctx
close kernel fd w = if not w.hook_enable then some w else elim (find_address fd w.fds) [
  | none ↦ some w
  | some p ↦
      let fds = put_ctx p (record (w.fds.ctx_at p) { is_closed = true }) w.fds in
      if not w.in_manager
      then some (record w { fds = del fd fds })
      else elim (cancel_all kernel fd w.io) [
        | none ↦ none
        | some (io, done) ↦ some (record w { fds = del fd fds; io = io })
      ]
]
