-- ===== src/Hook/Early.antt =====
-- src/hook.cpp, `do_io`: a fiber that is resumed while its event is still registered, as a
-- scheduler with the policy MLFQ does, whose `run` queues each fiber that has yielded again.
use coroutine_lib.Prelude.{
  ℕ, ◌≡◌, refl, sym, ap, subst, ◌∙◌, true, false, none, some, List, ◌∷◌, u64_max,
}
use coroutine_lib.IoManager.{IoManager, Kernel, has, increment, store}
use coroutine_lib.IoManager.Operations.{add_event, add_event_locked, addition_call}
use coroutine_lib.IoManager.Keeps.{waiter_of}
use coroutine_lib.IoManager.Pending.{waiting}
use coroutine_lib.IoManager.Wakes.{
  joined, add_event_locked_adds, has-joined, waiting-joined, store_self,
}
use coroutine_lib.Hook.{
  Answer, failed, World, Request, returned, yielded, eagain, fails_with, call_through, stop_timer,
  start_timeout, suspend, try_io, do_io, resume_io,
}
use coroutine_lib.Hook.Suspend.{IsReady, IsServed}
use coroutine_lib.Hook.Blocking.{IsHooked, do_io_tries}

-- The state of the I/O manager once the calling fiber waits.
abbrev pub with_waiter : Request → ℕ → ℕ → IoManager → IoManager
with_waiter r n p m = record m {
  pending_event_count = increment m.pending_event_count;
  context_at = store m.context_at p (joined r.event (waiter_of none r.caller.0) (m.context_at p));
  epoll_calls = addition_call n r.event (m.context_at p) ∷ m.epoll_calls;
}

module _ (kernel : Kernel) (r : Request) (n : ℕ) (s : IsServed kernel r n) (w : World)
    (h : IsReady r.event n w) where
  first_add :
      add_event kernel r.fd r.event none r.caller w.io ≡ some (with_waiter r n h.place w.io, true)
  unfolding add_event
  first_add =
      rw (s.descriptor, add_event, h.found)
        (add_event_locked_adds kernel n h.place r.event none r.caller.0 r.caller.1 w.io
          (h.consistent.sound h.place h.valid) s.accepts s.proper s.running h.free)

  taken_place : has r.event ((with_waiter r n h.place w.io).context_at h.place).events ≡ true
  taken_place =
      subst (λ c. has r.event c.events ≡ true) (sym (store_self w.io.context_at h.place _))
        (has-joined r.event (waiter_of none r.caller.0) (w.io.context_at h.place) s.proper)

  waits_there :
      waiting r.event ((with_waiter r n h.place w.io).context_at h.place)
      ≡ waiter_of none r.caller.0
  waits_there =
      ap (waiting r.event) (store_self w.io.context_at h.place _)
      ∙ waiting-joined r.event (waiter_of none r.caller.0) (w.io.context_at h.place) s.proper

  second_add :
      add_event kernel r.fd r.event none r.caller (with_waiter r n h.place w.io)
      ≡ some (with_waiter r n h.place w.io, false)
  unfolding add_event add_event_locked
  second_add = rw (s.descriptor, add_event, h.found, add_event_locked, taken_place) refl

-- The state in which the fiber waits, which is also that in which the call fails.
pub record FailsEarly (kernel : Kernel) (r : Request) (p now later : ℕ) (answers rest : List Answer)
    (w : World) : Type 0 where
  pub asleep : World
  pub yields : do_io kernel r now answers w ≡ yielded none rest asleep
  pub fails : resume_io kernel r u64_max later none rest asleep ≡ returned (failed none) asleep
  pub registered : has r.event (asleep.io.context_at p).events ≡ true
  pub waits : waiting r.event (asleep.io.context_at p) ≡ waiter_of none r.caller.0

-- Let the kernel accept every change of the events, and a running fiber make a hooked call without
-- a timeout that reads or writes on an open socket, left blocking by its user, with no such event
-- registered. If there is nothing to do, and the fiber is resumed in the state in which it yielded
-- while there still is nothing to do, the call returns -1, and `errno` is not set to a
-- timeout; the event stays registered, with the fiber as its waiter.
pub resume_io-FailsEarly :
    (kernel : Kernel) (r : Request) (n now later : ℕ) (answers rest left : List Answer)
    (a b : Answer) (w : World)
    → IsServed kernel r n
    → IsHooked r u64_max w
    → (ready : IsReady r.event n w) → call_through answers ≡ some (a, rest)
    → fails_with eagain a ≡ true
    → call_through rest ≡ some (b, left)
    → fails_with eagain b ≡ true
    → FailsEarly kernel r ready.place now later answers rest w
unfolding do_io try_io suspend start_timeout resume_io stop_timer
resume_io-FailsEarly kernel r n now later answers rest left a b w s hooked ready h blocks h'
      blocks' =
    record {
      asleep = record w { cancelled = 0; io = with_waiter r n ready.place w.io };
      yields =
          do_io_tries kernel r u64_max now answers w hooked
          ∙ simp (
            try_io,
            h,
            blocks,
            ready.managed,
            suspend,
            start_timeout,
            first_add kernel r n s w ready,
          );
      fails = simp (
        resume_io,
        try_io,
        h',
        blocks',
        ready.managed,
        suspend,
        start_timeout,
        second_add kernel r n s w ready,
      );
      registered = taken_place kernel r n s w ready;
      waits = waits_there kernel r n s w ready;
    }
