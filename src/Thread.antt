-- ===== src/Thread.antt =====
-- include/mycoroutine/thread.h and src/thread.cpp: `Semaphore` and `Thread`.
-- A callback and a name are numbers. The results of the pthread functions and the thread's number
-- are arguments; an exception is `none`.
pub mod Start
pub mod Phases
pub mod Invariant
pub mod Handshake
pub mod Progress
mod Examples
use coroutine_lib.Prelude.{ℕ, ◌+◌, ◌-◌, Bool, true, false, Option, none, some, ◌==◌, if◌then◌else◌}
use coroutine_lib.Prelude.Int.{ℤ, pos, negsuc, minus_one}

-- The semaphore is its count; it is 0 or 1 here, so that the `int` does not overflow.
pub record Thread : Type 0 where
  pub id : ℤ
  pub handle : Bool  -- `m_thread` is not 0
  pub cb : Option ℕ
  pub name : ℕ
  pub count : ℕ

-- The thread-local variables of one thread.
pub record Locals : Type 0 where
  pub has_thread : Bool
  pub name : Option ℕ

abbrev pub is_zero : ℤ → Bool
is_zero (pos n) = n == 0
is_zero (negsuc n) = false

-- The loop of `Semaphore::wait`, from one wait of the condition variable to the next: `none` is a
-- wait.
unfoldable pub semaphore_wait : ℕ → Option ℕ
semaphore_wait count = if count == 0 then none else some (count - 1)

-- The count that `Semaphore::signal` leaves before it notifies.
unfoldable pub semaphore_signal : ℕ → ℕ
semaphore_signal count = count + 1

-- The constructor, up to `pthread_create`, and with what that returns.
unfoldable pub members : ℕ → ℕ → Thread
members cb name = record { id = minus_one; handle = false; cb = some cb; name = name; count = 0 }

unfoldable pub create : ℤ → Thread → Option Thread
create rt t = if is_zero rt then some (record t { handle = true }) else none

-- `run`, up to the swap of the callback.
unfoldable pub initialise : ℤ → Thread → Thread × Locals
initialise tid t = (record t { id = tid }, record { has_thread = true; name = some t.name })

-- `cb.swap(thread->m_cb)` with an empty `cb`.
unfoldable pub swap_cb : Thread → Thread × Option ℕ
swap_cb t = (record t { cb = none }, t.cb)

-- `join`, with what `pthread_join` returns.
unfoldable pub join : ℤ → Thread → Option Thread
join rt t =
    if t.handle then if is_zero rt then some (record t { handle = false }) else none else some t

-- The destructor; true means that it detaches the thread.
unfoldable pub destroy : Thread → Thread × Bool
destroy t = (record t { handle = false }, t.handle)

-- `SetName`, on the thread of the object.
unfoldable pub set_name : ℕ → Locals → Thread → Locals × Thread
set_name name l t =
    (record l { name = some name }, if l.has_thread then record t { name = name } else t)
