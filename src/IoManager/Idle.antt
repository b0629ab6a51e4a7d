-- ===== src/IoManager/Idle.antt =====
-- src/iomanager.cpp: `idle`, one round of its loop, `stopping` and `onTimerInsertedAtFront`.
use coroutine_lib.Prelude.{
  ℕ, Bool, ◌&&◌, ◌||◌, not, Option, none, some, List, [], ◌∷◌, ◌==◌, ltb, if◌then◌else◌, u64_max,
}
use coroutine_lib.Timer.Manager.{get_next_timer}
use coroutine_lib.Timer.Expire.{list_expired_cb}
use coroutine_lib.Scheduler.Run.{stopping}
use coroutine_lib.IoManager.{
  read_event, write_event, Events, FdContext, ctl_mod, ctl_del, EpollCall, IoManager, any_event,
  Kernel,
}
use coroutine_lib.IoManager.Contexts.{tickle, schedule_lock}
use coroutine_lib.IoManager.Operations.{epoll_ctl, trigger_counted}

-- The flags of an `epoll_event` that the code reads.
pub record Report : Type 0 where
  pub epoll_in : Bool
  pub epoll_out : Bool
  pub epoll_err : Bool
  pub epoll_hup : Bool

-- `real_events`, after the registered events have joined on an error or a hang-up.
unfoldable pub real_events : Report → Events → Events
real_events r events =
    let all = r.epoll_err || r.epoll_hup in
    record {
      reads = r.epoll_in || (all && events.reads);
      writes = r.epoll_out || (all && events.writes);
    }

abbrev pub meets : Events → Events → Bool
meets a b = (a.reads && b.reads) || (a.writes && b.writes)

abbrev pub left_events : Events → Events → Events
left_events events real = record {
  reads = events.reads && not real.reads;
  writes = events.writes && not real.writes;
}

-- The call that leaves `epoll` the events that did not occur.
abbrev pub rest_call : FdContext → Events → EpollCall
rest_call c real =
    let left = left_events c.events real in
    record { op = if any_event left then ctl_mod else ctl_del; fd = c.fd; events = left }

-- The handling of one event of a context, under the lock of the context.
unfoldable pub handle_event : Kernel → ℕ → Report → IoManager → Option IoManager
unfolding epoll_ctl trigger_counted
handle_event kernel p report m =
    let c = m.context_at p in
    let real = real_events report c.events in
    let (m', ok) = epoll_ctl kernel (rest_call c real) m in
    if not (meets c.events real)
    then some m
    else if not ok
    then some m
    else elim (trigger_counted real.reads read_event p m') [
      | none ↦ none
      | some a ↦ trigger_counted real.writes write_event p a
    ]

-- What `epoll_wait` reports: the eventfd, or a context.
pub data Ready : Type 0 where
  tickled : Ready
  context : ℕ → Report → Ready

-- The loop over the reports; the eventfd is read until it is 0.
unfoldable pub handle_all : Kernel → List Ready → IoManager → Option IoManager
handle_all kernel [] m = some m
handle_all kernel (tickled ∷ rest) m = handle_all kernel rest (record m { tickles = 0 })
handle_all kernel (context p report ∷ rest) m = elim (handle_event kernel p report m) [
  | none ↦ none
  | some m' ↦ handle_all kernel rest m'
]

unfoldable pub schedule_callbacks : List (Option ℕ) → IoManager → IoManager
schedule_callbacks [] m = m
schedule_callbacks (cb ∷ cbs) m = schedule_callbacks cbs (schedule_lock none cb m)

-- The timeout of `epoll_wait`.
unfoldable pub wait_timeout : ℕ → IoManager → IoManager × ℕ
wait_timeout now m =
    let (timers, next) = get_next_timer now m.timers in
    (record m { timers = timers }, if ltb next 5000 then next else 5000)

-- A round after `epoll_wait`, up to the `yield`: the callbacks that are due, and the reports. The
-- fuel is that of `listExpiredCb`.
unfoldable pub idle_round : ℕ → Kernel → ℕ → ℕ → List Ready → IoManager → Option IoManager
unfolding schedule_callbacks handle_all
idle_round fuel kernel now later reports m = elim (list_expired_cb fuel now later m.timers) [
  | none ↦ none
  | some (timers, cbs) ↦
      handle_all kernel reports (schedule_callbacks cbs (record m { timers = timers }))
]

-- `IOManager::stopping`
unfoldable pub io_stopping : ℕ → IoManager → IoManager × Bool
io_stopping now m =
    let (timers, timeout) = get_next_timer now m.timers in
    (
      record m { timers = timers },
      timeout == u64_max && m.pending_event_count == 0 && stopping m.scheduler,
    )

unfoldable pub on_timer_inserted_at_front : IoManager → IoManager
unfolding tickle
on_timer_inserted_at_front m = tickle m
