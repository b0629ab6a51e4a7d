-- ===== src/Hook/Suspend.antt =====
-- src/hook.cpp: what a call that yields leaves registered.
use coroutine_lib.Prelude.{
  ℕ, ◌<◌, ◌≡◌, ◌≢◌, refl, ◌∙◌, true, false, Option, none, some, List, ◌==◌, arith, Bool-cases,
  get_elem?, ◌+◌, inl, inr, u64_max,
}
use coroutine_lib.Prelude.Int.{pos}
use coroutine_lib.IoManager.{Event, none_event, EpollCall, IoManager, has, Kernel}
use coroutine_lib.IoManager.Contexts.{tickle}
use coroutine_lib.IoManager.Operations.{is_running, add_event, add_event_locked}
use coroutine_lib.IoManager.Idle.{on_timer_inserted_at_front}
use coroutine_lib.IoManager.Pending.{IsConsistent}
use coroutine_lib.IoManager.Keeps.{same-IsConsistent}
use coroutine_lib.IoManager.Wakes.{add_event_locked_adds}
use coroutine_lib.Timer.{TimerManager, tick_ms, set_find}
use coroutine_lib.Timer.Manager.{add_timer, insert_timer, new_timer}
use coroutine_lib.Timer.Order.{find-insert}
use coroutine_lib.Hook.{
  Answer, World, Request, yielded, start_timer, stop_timer, start_timeout, suspend,
}

-- In the I/O manager of the thread, the context at descriptor `n` has no such event.
pub record IsReady (event : Event) (n : ℕ) (w : World) : Type 0 where
  pub managed : w.in_manager ≡ true
  pub consistent : IsConsistent w.io
  pub place : ℕ
  pub found : get_elem? w.io.fd_contexts n ≡ some place
  pub valid : place < w.io.fresh
  pub free : has event (w.io.context_at place).events ≡ false

-- The state of the I/O manager, its timers and `tickles` aside, is the same.
abbrev pub SameEvents : IoManager → IoManager → Type 0
SameEvents a b =
    (a.context_at ≡ b.context_at)
    × (a.fresh ≡ b.fresh)
    × (a.fd_contexts ≡ b.fd_contexts)
    × (a.pending_event_count ≡ b.pending_event_count)
    × (a.scheduler ≡ b.scheduler)

pub start_timer_frame :
    (ms cb now : ℕ) (io : IoManager) → SameEvents (start_timer ms cb now io).0 io
unfolding start_timer on_timer_inserted_at_front tickle
start_timer_frame ms cb now io = ground arith

pub start_timeout_frame :
    (timeout : ℕ) (r : Request) (now : ℕ) (w : World)
    → SameEvents (start_timeout timeout r now w).0 w.io
unfolding start_timeout
start_timeout_frame timeout r now w = elim (Bool-cases (timeout == u64_max)) [
  | inl h ↦ rw h (refl, refl, refl, refl, refl)
  | inr h ↦ rw h (start_timer_frame timeout r.on_timeout now w.io)
]

pub stop_timer_frame : (timer : Option ℕ) (io : IoManager) → SameEvents (stop_timer timer io) io
unfolding stop_timer
stop_timer_frame none io = (refl, refl, refl, refl, refl)
stop_timer_frame (some p) io = (refl, refl, refl, refl, refl)

abbrev pub ready_after :
    (event : Event) (n : ℕ) (w : World) (io : IoManager)
    → SameEvents io w.io
    → IsReady event n w
    → IsReady event n (record w { io = io })
ready_after event n w io (at, fresh, contexts, count, s) h = record {
  managed = h.managed;
  consistent = same-IsConsistent w.io io at fresh contexts count h.consistent;
  place = h.place;
  found = rw contexts h.found;
  valid = rw fresh h.valid;
  free = rw at h.free;
}

-- A request of a running fiber for READ or WRITE, and a kernel that accepts every change.
pub record IsServed (kernel : Kernel) (r : Request) (n : ℕ) : Type 0 where
  pub descriptor : r.fd ≡ pos n
  pub proper : r.event ≢ none_event
  pub running : is_running r.caller.1 ≡ true
  pub accepts : (c : EpollCall) → kernel c ≡ true

pub add_event_adds :
    (kernel : Kernel) (r : Request) (n : ℕ) (w : World)
    → IsServed kernel r n
    → IsReady r.event n w
    → (after : IoManager) × (add_event kernel r.fd r.event none r.caller w.io ≡ some (after, true))
unfolding add_event
add_event_adds kernel r n w s h =
    let locks : add_event kernel r.fd r.event none r.caller w.io
        ≡ add_event_locked kernel n r.event none r.caller h.place w.io =
      rw (s.descriptor, add_event, h.found) refl in
    (
      _,
      locks
          ∙ add_event_locked_adds kernel n h.place r.event none r.caller.0 r.caller.1 w.io
              (h.consistent.sound h.place h.valid) s.accepts s.proper s.running h.free,
    )

module _ (kernel : Kernel) (r : Request) (n timeout : ℕ) (s : IsServed kernel r n) where
  pub suspend_yields :
      (now : ℕ) (answers : List Answer) (w : World)
      → IsReady r.event n w
      → (timer : Option ℕ) × (after : World) × (suspend kernel r timeout now answers w
          ≡ yielded timer answers after)
  unfolding suspend
  suspend_yields now answers w h =
      let (io, timer) = start_timeout timeout r now w in
      let ready = ready_after r.event n w io (start_timeout_frame timeout r now w) h in
      let (after, adds) = add_event_adds kernel r n (record w { io = io }) s ready in
      (timer, record w { io = after }, rw (suspend, adds) refl)

-- A timer that is due so much later and then calls `cb`.
pub record IsArmed (ms cb now p : ℕ) (timers : TimerManager) : Type 0 where
  pub due : (timers.timer_at p).next ≡ now + tick_ms ms
  pub calls : (timers.timer_at p).cb ≡ some cb
  pub listed : set_find timers.timer_at p timers.timers ≡ true

pub start_timer-timers :
    (ms cb now : ℕ) (io : IoManager)
    → (start_timer ms cb now io).0.timers ≡ (add_timer ms (some cb) false now io.timers).manager
unfolding start_timer on_timer_inserted_at_front tickle
start_timer-timers ms cb now io = ground arith

pub start_timer-IsArmed :
    (ms cb now : ℕ) (io : IoManager)
    → IsArmed ms cb now (start_timer ms cb now io).1 (start_timer ms cb now io).0.timers
unfolding start_timer add_timer insert_timer new_timer
start_timer-IsArmed ms cb now io = rw (start_timer-timers ms cb now io) (record {
  due = ground arith;
  calls = ground arith;
  listed = find-insert _ io.timers.fresh io.timers.timers;
})

abbrev pub zeroed :
    (event : Event) (n : ℕ) (w : World)
    → IsReady event n w
    → IsReady event n (record w { cancelled = 0 })
zeroed event n w ready = record {
  managed = ready.managed;
  consistent = ready.consistent;
  place = ready.place;
  found = ready.found;
  valid = ready.valid;
  free = ready.free;
}
