-- ===== src/Hook/Timeout.antt =====
-- src/hook.cpp, `do_io`: a call whose timeout is over before its descriptor is ready.
use coroutine_lib.Prelude.{
  ℕ, ◌≡◌, ◌≢◌, refl, sym, ap, ◌∙◌, true, false, none, some, List, arith, u64_max, ◌==◌,
  Option-cases, inl, inr,
}
use coroutine_lib.Scheduler.Queue.{schedule_ex}
use coroutine_lib.IoManager.{IoManager, Kernel}
use coroutine_lib.IoManager.Contexts.{any_thread}
use coroutine_lib.IoManager.Operations.{add_event, cancel_event, at_context}
use coroutine_lib.IoManager.Wakes.{add_event_locked_adds, add_event_cancelled}
use coroutine_lib.Timer.Manager.{cancel}
use coroutine_lib.Hook.{
  Answer, failed, World, Request, returned, yielded, eagain, etimedout, fails_with, call_through,
  start_timer, stop_timer, start_timeout, suspend, try_io, do_io, resume_io, on_timeout,
}
use coroutine_lib.Hook.Suspend.{
  IsArmed, start_timer-IsArmed, IsReady, IsServed, ready_after, start_timer_frame, zeroed,
}
use coroutine_lib.Hook.Blocking.{IsHooked, do_io_tries}

-- The event is registered, and cancelled again.
record Cancels (kernel : Kernel) (r : Request) (p : ℕ) (m : IoManager) : Type 0 where
  added : IoManager
  cancelled : IoManager
  adds : add_event kernel r.fd r.event none r.caller m ≡ some (added, true)
  timers : added.timers ≡ m.timers
  cancels : cancel_event kernel r.fd r.event added ≡ some (cancelled, true)
  wakes : cancelled.scheduler ≡ (schedule_ex (some r.caller.0) none any_thread m.scheduler).0
  clears : (cancelled.context_at p).events ≡ (m.context_at p).events
  counts : cancelled.pending_event_count ≡ m.pending_event_count

added_then_cancelled :
    (kernel : Kernel) (r : Request) (n : ℕ) (w : World)
    → IsServed kernel r n
    → (h : IsReady r.event n w) → Cancels kernel r h.place w.io
unfolding add_event cancel_event at_context
added_then_cancelled kernel r n w s h =
    let p = h.place in
    let (added, cancelled, adds, cancels, wakes, clears, counts) =
      add_event_cancelled kernel n p r.event none r.caller.0 r.caller.1 w.io h.consistent h.valid
        s.accepts s.proper s.running h.free in
    let made =
      add_event_locked_adds kernel n p r.event none r.caller.0 r.caller.1 w.io
        (h.consistent.sound p h.valid) s.accepts s.proper s.running h.free in
    let same : added.fd_contexts ≡ w.io.fd_contexts =
      ap (λ o. elim o [ none ↦ w.io.fd_contexts | some x ↦ x.0.fd_contexts ]) (sym adds ∙ made) in
    record {
      added = added;
      cancelled = cancelled;
      adds = rw (s.descriptor, add_event, h.found) adds;
      timers = ap (λ o. elim o [ none ↦ w.io.timers | some x ↦ x.0.timers ]) (sym adds ∙ made);
      cancels = rw (s.descriptor, cancel_event, at_context, same, h.found) cancels;
      wakes = wakes;
      clears = clears;
      counts = counts;
    }

cb-stop_timer : (p : ℕ) (io : IoManager) → ((stop_timer (some p) io).timers.timer_at p).cb ≡ none
unfolding stop_timer cancel
cb-stop_timer p io = elim (Option-cases (io.timers.timer_at p).cb) [
  | inl e ↦ rw e e
  | inr (c, e) ↦ ground (arith, e)
]

-- How a call times out: the state in which its fiber waits, with the timer, that in which the
-- callback of the timer leaves it, and that in which it returns.
pub record TimesOut (kernel : Kernel) (r : Request) (p timeout now later : ℕ)
    (answers rest : List Answer) (w : World) : Type 0 where
  pub timer : ℕ
  pub asleep : World
  pub expired : World
  pub yields : do_io kernel r now answers w ≡ yielded (some timer) rest asleep
  pub armed : IsArmed timeout r.on_timeout now timer asleep.io.timers
  pub expires : on_timeout kernel r.fd r.event true asleep ≡ some expired
  pub wakes :
      expired.io.scheduler ≡ (schedule_ex (some r.caller.0) none any_thread w.io.scheduler).0
  pub clears : (expired.io.context_at p).events ≡ (w.io.context_at p).events
  pub counts : expired.io.pending_event_count ≡ w.io.pending_event_count
  pub once : on_timeout kernel r.fd r.event true expired ≡ some expired
  pub ends :
      resume_io kernel r timeout later (some timer) rest expired
      ≡ returned
          (failed (some etimedout))
          (record expired { io = stop_timer (some timer) expired.io })
  pub stopped : ((stop_timer (some timer) expired.io).timers.timer_at timer).cb ≡ none

-- Let the kernel accept every change of the events, and a running fiber make a hooked call that
-- reads or writes on an open socket, left blocking by its user, with no such event registered and
-- with a timeout. If the first answer that is not a signal is that there is nothing to do, the
-- fiber yields, with a timer that is due after the timeout. If nothing else happens before its
-- callback runs, that puts just the task of the fiber into the queue and leaves the events and
-- their count as they were before the call; to run it again changes nothing. The call then returns
-- -1 with ETIMEDOUT, and the timer has no callback any more.
pub do_io-TimesOut :
    (kernel : Kernel) (r : Request) (n timeout now later : ℕ) (answers rest : List Answer)
    (a : Answer) (w : World)
    → IsServed kernel r n
    → IsHooked r timeout w
    → (ready : IsReady r.event n w) → call_through answers ≡ some (a, rest)
    → fails_with eagain a ≡ true
    → timeout ≢ u64_max
    → TimesOut kernel r ready.place timeout now later answers rest w
unfolding do_io try_io suspend start_timeout on_timeout resume_io
do_io-TimesOut kernel r n timeout now later answers rest a w s hooked ready h blocks limited =
    let (timer_io, timer) = start_timer timeout r.on_timeout now w.io in
    let w0 : World = record w { cancelled = 0 } in
    let w1 : World = record w { cancelled = 0; io = timer_io } in
    let frame = start_timer_frame timeout r.on_timeout now w.io in
    let (at, _, _, count, queue) = frame in
    let c =
      added_then_cancelled kernel r n w1 s
        (ready_after r.event n w0 timer_io frame (zeroed r.event n w ready)) in
    let no_max : (timeout == u64_max) ≡ false = ground arith in
    record {
      timer = timer;
      asleep = record w1 { io = c.added };
      expired = record w { cancelled = etimedout; io = c.cancelled };
      yields =
          do_io_tries kernel r timeout now answers w hooked
          ∙ simp (try_io, h, blocks, ready.managed, suspend, start_timeout, no_max, c.adds);
      armed = rw c.timers (start_timer-IsArmed timeout r.on_timeout now w.io);
      expires = rw (on_timeout, c.cancels) refl;
      wakes = c.wakes ∙ ap (λ x. (schedule_ex (some r.caller.0) none any_thread x).0) queue;
      clears = c.clears ∙ ap (λ f. (f ready.place).events) at;
      counts = c.counts ∙ count;
      once = refl;
      ends = refl;
      stopped = cb-stop_timer timer c.cancelled;
    }
