-- ===== src/IoManager/Examples.antt =====
-- A new manager, fibers that wait for descriptor 0, and the theorems there.
use coroutine_lib.Prelude.{
  ℕ, ◌<◌, ◌≡◌, Bool, true, false, none, some, List, [], ◌∷◌, refl, inl, inr, arith, get_elem?,
}
use coroutine_lib.Prelude.Int.{pos}
use coroutine_lib.Fiber.{running}
use coroutine_lib.Scheduler.{Scheduler, fifo}
use coroutine_lib.Scheduler.Queue.{schedule_ex}
use coroutine_lib.Timer.{TimerManager}
use coroutine_lib.Timer.Manager.{new_manager}
use coroutine_lib.IoManager.{read_event, write_event, FdContext, IoManager, has, store, Kernel}
use coroutine_lib.IoManager.Contexts.{
  new_context, new_io_manager, context_resize, resize_addresses, any_thread,
}
use coroutine_lib.IoManager.Operations.{
  grow, add_event_locked, cancel_event_locked, del_event_locked, cancel_event, del_event, epoll_ctl,
  removal_call,
}
use coroutine_lib.IoManager.Idle.{Report, handle_event}
use coroutine_lib.IoManager.Pending.{IsConsistent, raised, taken}
use coroutine_lib.IoManager.Keeps.{waiter_of}
use coroutine_lib.IoManager.Resize.{new_io_manager-IsConsistent}
use coroutine_lib.IoManager.Calls.{Call, add, del, cancel, cancel_both, run_calls, calls_counted}
use coroutine_lib.IoManager.Reports.{stale_report_aborts}
use coroutine_lib.IoManager.Wakes.{add_event_cancelled, grow_loses}

abbrev willing : Kernel
willing c = true

abbrev memory : ℕ → FdContext
memory p = new_context p

abbrev idle_scheduler : Scheduler
idle_scheduler = record {
  tasks = [];
  policy = fifo;
  mlfq_config = record {
    levels = 3;
    demote_on_yield = true;
    enable_aging = true;
    aging_sequence_gap = 8;
  };
  task_sequence = 0;
  active_thread_count = 0;
  idle_thread_count = 0;
  stop_flag = false;
}

abbrev no_timers : TimerManager
no_timers = new_manager (λ p. record { recurring = false; ms = 0; next = 0; cb = none }) 0

abbrev fresh_manager : IoManager
fresh_manager = new_io_manager memory idle_scheduler no_timers

fresh_manager-IsConsistent : IsConsistent fresh_manager
fresh_manager-IsConsistent = new_io_manager-IsConsistent memory idle_scheduler no_timers

first_valid : 0 < fresh_manager.fresh
unfolding new_io_manager context_resize
first_valid = omega arith

-- Fiber 1 waits for READ,
abbrev reading : IoManager
reading = record fresh_manager {
  pending_event_count = 1;
  context_at = store fresh_manager.context_at 0 (record (new_context 0) {
    read = waiter_of none 1;
    events = record { reads = true; writes = false };
  });
}

reading-IsConsistent : IsConsistent reading
unfolding new_io_manager context_resize
reading-IsConsistent =
    raised fresh_manager reading 0 _ fresh_manager-IsConsistent first_valid
      ((refl, inl refl), (refl, inr (refl, refl))) refl refl refl refl refl

-- and fiber 2 for WRITE.
abbrev both : IoManager
both = record reading {
  pending_event_count = 2;
  context_at = store reading.context_at 0 (record (reading.context_at 0) {
    write = waiter_of none 2;
    events = record { reads = true; writes = true };
  });
}

both-IsConsistent : IsConsistent both
unfolding new_io_manager context_resize
both-IsConsistent =
    raised reading both 0 _ reading-IsConsistent first_valid ((refl, inl refl), (refl, inl refl))
      refl refl refl refl refl

abbrev script : List (Kernel × Call)
script =
    (willing, add (pos 40) read_event none (1, running))
    ∷ (willing, add (pos 40) write_event (some 7) (1, running))
    ∷ (willing, cancel (pos 40) read_event)
    ∷ (willing, del (pos 40) write_event)
    ∷ (willing, cancel_both (pos 40))
    ∷ []

calls_counted_example :
    (after : IoManager) × (answers : List Bool) × (run_calls script fresh_manager
      ≡ some (after, answers))
    × IsConsistent after
calls_counted_example =
    calls_counted memory idle_scheduler no_timers script
      (((λ e. cc), refl), (((λ e. cc), refl), (refl, (refl, (refl, tt)))))

abbrev readable : Report
readable = record { epoll_in = true; epoll_out = false; epoll_err = false; epoll_hup = false }

abbrev write_deleted : IoManager
write_deleted = record both {
  pending_event_count = 1;
  context_at = store both.context_at 0 (taken write_event (both.context_at 0));
  epoll_calls = removal_call 0 write_event (both.context_at 0) ∷ both.epoll_calls;
}

write_deleted_is_returned :
    del_event_locked willing 0 write_event 0 both ≡ some (write_deleted, true)
unfolding del_event_locked epoll_ctl new_io_manager context_resize
write_deleted_is_returned = refl

abbrev ready_for_both : Report
ready_for_both = record { epoll_in = true; epoll_out = true; epoll_err = false; epoll_hup = false }

stale_report_aborts_example : handle_event willing 0 ready_for_both write_deleted ≡ none
stale_report_aborts_example =
    stale_report_aborts willing willing 0 0 both write_deleted both-IsConsistent first_valid
      (λ c. refl) refl write_deleted_is_returned ready_for_both (refl, refl)

nothing_registered : has read_event (fresh_manager.context_at 0).events ≡ false
unfolding new_io_manager context_resize
nothing_registered = refl

add_event_cancelled_example :
    (added cancelled : IoManager) × (add_event_locked willing 0 read_event none
        (1, running)
        0
        fresh_manager
      ≡ some (added, true))
    × (cancel_event_locked willing 0 read_event 0 added ≡ some (cancelled, true))
    × (cancelled.scheduler ≡ (schedule_ex (some 1) none any_thread fresh_manager.scheduler).0)
    × ((cancelled.context_at 0).events ≡ (fresh_manager.context_at 0).events)
    × (cancelled.pending_event_count ≡ fresh_manager.pending_event_count)
add_event_cancelled_example =
    add_event_cancelled willing 0 0 read_event none 1 running fresh_manager
      fresh_manager-IsConsistent first_valid (λ c. refl) (λ e. cc) refl nothing_registered

-- A vector of 150 places, where descriptor 100 waits for READ.
abbrev long : IoManager
long = context_resize 150 fresh_manager

abbrev long_reading : IoManager
long_reading = record long {
  pending_event_count = 1;
  context_at = store long.context_at 100 (record (new_context 100) {
    read = waiter_of none 1;
    events = record { reads = true; writes = false };
  });
}

long_reading_context : get_elem? long_reading.fd_contexts 100 ≡ some 100
unfolding new_io_manager context_resize resize_addresses
long_reading_context = refl

long_reading_valid : 100 < long_reading.fresh
unfolding new_io_manager context_resize
long_reading_valid = omega arith

grow_loses_example :
    (cancel_event willing (pos 100) read_event (grow 40 long_reading)
      ≡ some (grow 40 long_reading, false))
    × (del_event willing (pos 100) read_event (grow 40 long_reading)
        ≡ some (grow 40 long_reading, false))
    × (has read_event ((grow 40 long_reading).context_at 100).events ≡ true)
    × ((grow 40 long_reading).pending_event_count ≡ long_reading.pending_event_count)
grow_loses_example =
    grow_loses willing 40 100 100 read_event long_reading long_reading_context long_reading_valid
      refl (omega arith)
