-- ===== src/Hook/Examples.antt =====
-- A socket at descriptor 0, fiber 1 which reads from it, and the theorems there.
use coroutine_lib.Prelude.{ℕ, ◌≡◌, refl, true, false, none, some, List, [], ◌∷◌, arith, u64_max}
use coroutine_lib.Prelude.Int.{pos, minus_one}
use coroutine_lib.Fiber.{running}
use coroutine_lib.Scheduler.{Scheduler, fifo}
use coroutine_lib.Timer.{TimerManager}
use coroutine_lib.Timer.Manager.{new_manager}
use coroutine_lib.FdManager.{FdCtx, FdManager, get, get_read, get_timeout}
use coroutine_lib.IoManager.{IoManager, Event, none_event, read_event, write_event, Kernel, has}
use coroutine_lib.IoManager.Contexts.{new_context, new_io_manager, context_resize, resize_addresses}
use coroutine_lib.IoManager.Resize.{new_io_manager-IsConsistent}
use coroutine_lib.Hook.{
  Answer, World, Request, failed, eintr, eagain, etimedout, einprogress, find_address, find_ctx,
  call_through,
}
use coroutine_lib.Hook.Suspend.{IsReady, IsServed}
use coroutine_lib.Hook.Blocking.{IsHooked, outcome}
use coroutine_lib.Hook.Timeout.{TimesOut, do_io-TimesOut}
use coroutine_lib.Hook.Early.{FailsEarly, resume_io-FailsEarly}
use coroutine_lib.Hook.Control.{set_flags, get_flags, has_flag, setsockopt}
use coroutine_lib.Hook.Flags.{get_flags-set_flags, setsockopt-IsHooked}
use coroutine_lib.Hook.Connect.{SocketError, connect_with_timeout}
use coroutine_lib.Hook.Connecting.{run_connect, outcome-connect_with_timeout}

abbrev idle_scheduler : Scheduler
idle_scheduler = record {
  tasks = [];
  policy = fifo;
  mlfq_config = record {
    levels = 3;
    demote_on_yield = true;
    enable_aging = true;
    aging_sequence_gap = 8;
  };
  task_sequence = 0;
  active_thread_count = 0;
  idle_thread_count = 0;
  stop_flag = false;
}

abbrev no_timers : TimerManager
no_timers = new_manager (λ p. record { recurring = false; ms = 0; next = 0; cb = none }) 0

abbrev manager : IoManager
manager = new_io_manager new_context idle_scheduler no_timers

abbrev socket_ctx : ℕ → FdCtx
socket_ctx timeout = record {
  is_init = true;
  is_socket = true;
  sys_nonblock = true;
  user_nonblock = false;
  is_closed = false;
  fd = 0;
  recv_timeout = timeout;
  send_timeout = u64_max;
}

abbrev sockets : ℕ → FdManager
sockets timeout = record { ctx_at = λ p. socket_ctx timeout; fresh = 1; datas = some 0 ∷ none ∷ [] }

abbrev world : ℕ → World
world timeout = record {
  hook_enable = true;
  fds = sockets timeout;
  in_manager = true;
  io = manager;
  cancelled = 0;
}

abbrev reading : Request
reading = record {
  fd = pos 0;
  event = read_event;
  is_recv = true;
  caller = (1, running);
  on_timeout = 7;
}

abbrev writing : Request
writing = record reading { event = write_event; is_recv = false }

abbrev willing : Kernel
willing c = true

reading-IsServed : IsServed willing reading 0
reading-IsServed = record {
  descriptor = refl;
  proper = λ e. cc;
  running = refl;
  accepts = λ c. refl;
}

writing-IsServed : IsServed willing writing 0
writing-IsServed = record {
  descriptor = refl;
  proper = λ e. cc;
  running = refl;
  accepts = λ c. refl;
}

world-IsHooked : (timeout : ℕ) → IsHooked reading timeout (world timeout)
unfolding find_ctx find_address get get_read get_timeout
world-IsHooked timeout = record {
  enabled = refl;
  ctx = socket_ctx timeout;
  known = refl;
  alive = refl;
  socket = refl;
  blocks = refl;
  limit = refl;
}

writing-IsHooked : IsHooked writing u64_max (world 50)
unfolding find_ctx find_address get get_read get_timeout
writing-IsHooked = record {
  enabled = refl;
  ctx = socket_ctx 50;
  known = refl;
  alive = refl;
  socket = refl;
  blocks = refl;
  limit = refl;
}

world-IsReady : (event : Event) (timeout : ℕ) → IsReady event 0 (world timeout)
unfolding new_io_manager context_resize resize_addresses
world-IsReady event timeout = record {
  managed = refl;
  consistent = new_io_manager-IsConsistent new_context idle_scheduler no_timers;
  place = 0;
  found = refl;
  valid = omega arith;
  free = nothing_registered event;
}
  where
    nothing_registered : (event : Event) → has event (new_context 0).events ≡ false
    nothing_registered none_event = refl
    nothing_registered read_event = refl
    nothing_registered write_event = refl

abbrev nothing_yet : Answer
nothing_yet = record { value = minus_one; errno = eagain }

abbrev interrupted : Answer
interrupted = record { value = minus_one; errno = eintr }

abbrev four_bytes : Answer
four_bytes = record { value = pos 4; errno = 0 }

-- Interrupted once, then waits once, then reads.
abbrev answers : List Answer
answers = interrupted ∷ nothing_yet ∷ four_bytes ∷ []

abbrev late : World
late = record (world 50) { cancelled = etimedout }

do_io-TimesOut_example : TimesOut willing reading 0 50 2 9 answers (four_bytes ∷ []) (world 50)
unfolding call_through world-IsReady
do_io-TimesOut_example =
    do_io-TimesOut willing reading 0 50 2 9 answers (four_bytes ∷ []) nothing_yet (world 50)
      reading-IsServed (world-IsHooked 50) (world-IsReady read_event 50) refl refl
      (λ e. omega (arith, e))

resume_io-FailsEarly_example :
    FailsEarly willing reading 0 2 2
      (nothing_yet ∷ nothing_yet ∷ [])
      (nothing_yet ∷ [])
      (world u64_max)
unfolding call_through world-IsReady
resume_io-FailsEarly_example =
    resume_io-FailsEarly willing reading 0 2 2 (nothing_yet ∷ nothing_yet ∷ []) (nothing_yet ∷ [])
      [] nothing_yet nothing_yet (world u64_max) reading-IsServed (world-IsHooked u64_max)
      (world-IsReady read_event u64_max) refl refl refl refl

-- The user sets O_NONBLOCK and another flag.
get_flags-set_flags_example :
    (has_flag (set_flags (pos 0) 2050 (sockets 50)).1 ≡ true)
    × (get_flags
          (pos 0)
          (set_flags (pos 0) 2050 (sockets 50)).1
          (set_flags (pos 0) 2050 (sockets 50)).0
        ≡ 2050)
unfolding find_address get get_read
get_flags-set_flags_example = get_flags-set_flags (pos 0) 0 2050 (sockets 50) refl (refl, refl)

setsockopt-IsHooked_example :
    IsHooked reading 1500
      (record (world 50) { fds = setsockopt true (pos 0) (some (true, 1, 500000)) (sockets 50) })
setsockopt-IsHooked_example =
    setsockopt-IsHooked reading true 1 500000 50 (world 50) (world-IsHooked 50)

abbrev refused : SocketError
refused = record { answer = record { value = pos 0; errno = 0 }; error = 111 }

abbrev in_progress : Answer
in_progress = record { value = minus_one; errno = einprogress }

outcome-connect_with_timeout_example :
    outcome (
      run_connect
        (world 50)
        refused
        (connect_with_timeout willing writing 300 2 (in_progress ∷ []) (world 50)))
    ≡ some (failed (some 111))
outcome-connect_with_timeout_example =
    outcome-connect_with_timeout willing writing 0 u64_max 300 2 (in_progress ∷ []) refused false
      (world 50) (world 50) writing-IsServed writing-IsHooked (world-IsReady write_event 50) refl
