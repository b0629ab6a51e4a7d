-- ===== src/IoManager.antt =====
-- include/mycoroutine/iomanager.h and src/iomanager.cpp: the state of the I/O manager.
-- The `FdContext`s are shared objects: `context_at` holds them by address, and the vector
-- `m_fdContexts` is a list of addresses. A set of events is one Boolean for each of its bits. A
-- failed assertion, an exception or a read out of bounds is `none`.
pub mod Contexts
pub mod Operations
pub mod Idle
pub mod Pending
pub mod Trigger
pub mod Keeps
pub mod Resize
pub mod Calls
pub mod Reports
pub mod Wakes
mod Examples
use coroutine_lib.Prelude.{
  ℕ, suc, ◌+◌, ◌%◌, Bool, true, false, ◌&&◌, ◌||◌, not, Option, none, some, List, [], ◌∷◌, ◌++◌,
  ◌==◌, if◌then◌else◌, u64_mod, u64_max,
}
use coroutine_lib.Scheduler.{Scheduler}
use coroutine_lib.Timer.{TimerManager}

-- NONE, READ and WRITE.
pub data Event : Type 0 where
  none_event read_event write_event : Event

-- An `int` made of these bits.
pub record Events : Type 0 where
  pub reads : Bool
  pub writes : Bool

pub record EventContext : Type 0 where
  pub scheduler : Bool  -- whether the pointer is set: it is only ever set to this manager
  pub fiber : Option ℕ
  pub cb : Option ℕ

pub record FdContext : Type 0 where
  pub read : EventContext
  pub write : EventContext
  pub fd : ℕ
  pub events : Events

pub data EpollOp : Type 0 where
  ctl_add ctl_mod ctl_del : EpollOp

-- A successful call of `epoll_ctl`, without the flag EPOLLET.
pub record EpollCall : Type 0 where
  pub op : EpollOp
  pub fd : ℕ
  pub events : Events

pub record IoManager : Type 0 where
  pub context_at : ℕ → FdContext
  pub fresh : ℕ  -- the address of the next `new FdContext`
  pub fd_contexts : List ℕ
  pub pending_event_count : ℕ  -- size_t
  pub tickles : ℕ  -- the counter of the eventfd
  pub scheduler : Scheduler
  pub timers : TimerManager
  pub epoll_calls : List EpollCall  -- the last call first

abbrev pub no_events : Events
no_events = record { reads = false; writes = false }

-- `events & event`
abbrev pub has : Event → Events → Bool
has none_event e = false
has read_event e = e.reads
has write_event e = e.writes

-- `events | event`
abbrev pub with_event : Event → Events → Events
with_event none_event e = e
with_event read_event e = record e { reads = true }
with_event write_event e = record e { writes = true }

-- `events & ~event`
abbrev pub without_event : Event → Events → Events
without_event none_event e = e
without_event read_event e = record e { reads = false }
without_event write_event e = record e { writes = false }

abbrev pub any_event : Events → Bool
any_event e = e.reads || e.writes

abbrev pub store : (ℕ → FdContext) → ℕ → FdContext → ℕ → FdContext
store at p c q = if p == q then c else at q

abbrev pub increment : ℕ → ℕ
increment n = (n + 1) % u64_mod

abbrev pub decrement : ℕ → ℕ
decrement n = (n + u64_max) % u64_mod

-- The answers of the kernel to calls of `epoll_ctl`: true for the result 0.
abbrev pub Kernel : Type 0
Kernel = EpollCall → Bool
