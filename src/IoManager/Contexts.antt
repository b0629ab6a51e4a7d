-- ===== src/IoManager/Contexts.antt =====
-- src/iomanager.cpp: `FdContext`, `contextResize`, `tickle`, and the calls of the scheduler.
use coroutine_lib.Prelude.{
  ℕ, zero, suc, ◌+◌, ◌-◌, false, ◌&&◌, Option, none, some, List, [], ◌∷◌, ◌==◌, ltb, if◌then◌else◌,
  is_some, length,
}
use coroutine_lib.Prelude.Int.{pos, minus_one}
use coroutine_lib.Scheduler.{Scheduler, ScheduleOptions}
use coroutine_lib.Timer.{TimerManager}
use coroutine_lib.Scheduler.Queue.{schedule_ex}
use coroutine_lib.IoManager.{
  Event, none_event, read_event, write_event, EventContext, FdContext, IoManager, no_events, has,
  without_event, store,
}

abbrev pub empty_context : EventContext
empty_context = record { scheduler = false; fiber = none; cb = none }

abbrev pub new_context : ℕ → FdContext
new_context fd = record { read = empty_context; write = empty_context; fd = fd; events = no_events }

-- `getEventContext` as a reader; NONE makes it throw.
unfoldable pub get_event_context : Event → FdContext → Option EventContext
get_event_context none_event c = none
get_event_context read_event c = some c.read
get_event_context write_event c = some c.write

-- A write through the reference that `getEventContext` returns.
unfoldable pub put_event_context : Event → EventContext → FdContext → FdContext
put_event_context none_event e c = c
put_event_context read_event e c = record c { read = e }
put_event_context write_event e c = record c { write = e }

-- `resetEventContext`
unfoldable pub reset_event_context : Event → FdContext → FdContext
unfolding put_event_context
reset_event_context event c = put_event_context event empty_context c

-- `tickle`: wake a thread that waits in `epoll_wait`.
unfoldable pub tickle : IoManager → IoManager
tickle m = if m.scheduler.idle_thread_count == 0 then m else record m { tickles = m.tickles + 1 }

-- The defaults of `ScheduleOptions`.
abbrev pub any_thread : ScheduleOptions
any_thread = record { thread = minus_one; priority = pos 0; deadline_ms = 0 }

-- `scheduleLock`, that is `scheduleEx` with the call of `tickle` at its end.
unfoldable pub schedule_lock : Option ℕ → Option ℕ → IoManager → IoManager
schedule_lock fiber cb m =
    let (s, need_tickle) = schedule_ex fiber cb any_thread m.scheduler in
    let m' = record m { scheduler = s } in if need_tickle then tickle m' else m'

-- `triggerEvent`, for the context at an address.
unfoldable pub trigger_event : Event → ℕ → IoManager → Option IoManager
unfolding get_event_context reset_event_context
trigger_event event p m =
    let c = m.context_at p in
    elim (get_event_context event c) [
      | none ↦ none
      | some e ↦
          let c' = record (reset_event_context event c) { events = without_event event c.events } in
          let fiber = if is_some e.cb then none else e.fiber in
          let m' = schedule_lock fiber e.cb m in
          if has event c.events && e.scheduler
          then some (record m' { context_at = store m.context_at p c' })
          else none
    ]

-- `m_fdContexts.resize` with new objects for the missing positions, at the addresses from `fresh`.
unfoldable pub resize_addresses : ℕ → ℕ → List ℕ → List ℕ
resize_addresses fresh zero ps = []
resize_addresses fresh (suc n) [] = fresh ∷ resize_addresses (fresh + 1) n []
resize_addresses fresh (suc n) (p ∷ ps) = p ∷ resize_addresses fresh n ps

-- `contextResize`
unfoldable pub context_resize : ℕ → IoManager → IoManager
unfolding resize_addresses
context_resize size m =
    let old = length m.fd_contexts in
    record m {
      context_at = λ q. if ltb q m.fresh then m.context_at q else new_context (old + (q - m.fresh));
      fresh = m.fresh + (size - old);
      fd_contexts = resize_addresses m.fresh size m.fd_contexts;
    }

-- The constructor, before it starts the threads.
unfoldable pub new_io_manager : (ℕ → FdContext) → Scheduler → TimerManager → IoManager
unfolding context_resize
new_io_manager memory scheduler timers = context_resize 32 (record {
  context_at = memory;
  fresh = 0;
  fd_contexts = [];
  pending_event_count = 0;
  tickles = 0;
  scheduler = scheduler;
  timers = timers;
  epoll_calls = [];
})
