-- ===== src/Hook/Connecting.antt =====
-- src/hook.cpp, `connect_with_timeout`, beside the call on a blocking socket that it replaces.
use coroutine_lib.Prelude.{
  ℕ, ◌≡◌, refl, Bool, true, false, not, Option, none, some, List, [], ◌∷◌, ◌==◌, if◌then◌else◌,
  Bool-cases, inl, inr,
}
use coroutine_lib.Prelude.Int.{pos, minus_one, int_eq}
use coroutine_lib.IoManager.{Kernel}
use coroutine_lib.Hook.{
  Answer, Result, passed, failed, gives, World, Request, Pause, returned, yielded, unanswered,
  aborted, einprogress, etimedout, fails_with, suspend,
}
use coroutine_lib.Hook.Suspend.{IsReady, IsServed, suspend_yields, zeroed}
use coroutine_lib.Hook.Blocking.{IsHooked, outcome}
use coroutine_lib.Hook.Connect.{SocketError, connect_after, connect_with_timeout, resume_connect}

-- What the socket says once it is connected or has failed.
abbrev pub settled : SocketError → Result
settled so =
    if int_eq so.answer.value minus_one
    then passed so.answer
    else if so.error == 0
    then gives (pos 0)
    else failed (some so.error)

-- What `connect` with a timeout on a blocking socket returns: by the first answer, or, if the
-- connection takes time, by whether the timeout is over first, or by what the socket says then.
abbrev pub blocking_connect : List Answer → Bool → SocketError → Option Result
blocking_connect [] late so = none
blocking_connect (a ∷ rest) late so =
    if int_eq a.value (pos 0)
    then some (gives (pos 0))
    else if not (fails_with einprogress a)
    then some (passed a)
    else if late
    then some (failed (some etimedout))
    else some (settled so)

-- The fiber is resumed in a state, if it has yielded.
abbrev pub run_connect : World → SocketError → Pause → Pause
run_connect w so (yielded timer answers w') = resume_connect timer so w
run_connect w so (returned x w') = returned x w'
run_connect w so unanswered = unanswered
run_connect w so aborted = aborted

outcome-resume_connect :
    (timer : Option ℕ) (so : SocketError) (late : Bool) (w : World)
    → w.cancelled ≡ (if late then etimedout else 0)
    → outcome (resume_connect timer so w)
      ≡ (if late then some (failed (some etimedout)) else some (settled so))
unfolding resume_connect
outcome-resume_connect timer so true w h = rw (resume_connect, h) refl
outcome-resume_connect timer so false w h = elim (Bool-cases (int_eq so.answer.value minus_one)) [
  | inl e ↦ rw (resume_connect, h, e) refl
  | inr e ↦ elim (Bool-cases (so.error == 0)) [
    | inl f ↦ rw (resume_connect, h, e, f) refl
    | inr f ↦ rw (resume_connect, h, e, f) refl
  ]
]

connect_tries :
    (kernel : Kernel) (r : Request) (timeout timeout_ms now : ℕ) (a : Answer) (rest : List Answer)
    (w : World)
    → IsHooked r timeout w
    → connect_with_timeout kernel r timeout_ms now (a ∷ rest) w
      ≡ connect_after kernel r timeout_ms now a rest w
unfolding connect_with_timeout
connect_tries kernel r timeout timeout_ms now a rest w h =
    simp (connect_with_timeout, h.enabled, h.known, h.alive, h.socket, h.blocks)

connect_suspends :
    (kernel : Kernel) (r : Request) (timeout_ms now : ℕ) (a : Answer) (rest : List Answer)
    (w : World)
    → int_eq a.value (pos 0) ≡ false
    → fails_with einprogress a ≡ true
    → w.in_manager ≡ true
    → connect_after kernel r timeout_ms now a rest w
      ≡ suspend kernel r timeout_ms now rest (record w { cancelled = 0 })
unfolding connect_after
connect_suspends kernel r timeout_ms now a rest w e f m = simp (connect_after, e, f, m)

-- Let the kernel accept every change of the events, and a running fiber call the hooked `connect`,
-- with any timeout, on an open socket, left blocking by its user, whose place in the I/O manager of
-- the thread has no such event. For all answers, the call returns what it would on a blocking
-- socket: the first answer, if that is not EINPROGRESS; else ETIMEDOUT if the timeout is over when
-- the fiber is resumed, and what the socket says about the connection if it is not.
pub outcome-connect_with_timeout :
    (kernel : Kernel) (r : Request) (n timeout timeout_ms now : ℕ) (answers : List Answer)
    (so : SocketError) (late : Bool) (w resumed : World)
    → IsServed kernel r n
    → IsHooked r timeout w
    → IsReady r.event n w
    → resumed.cancelled ≡ (if late then etimedout else 0)
    → outcome (run_connect resumed so (connect_with_timeout kernel r timeout_ms now answers w))
      ≡ blocking_connect answers late so
unfolding connect_after connect_with_timeout
outcome-connect_with_timeout kernel r n timeout timeout_ms now [] so late w resumed s hooked ready
      h =
    simp (
      connect_with_timeout, hooked.enabled, hooked.known, hooked.alive, hooked.socket,
      hooked.blocks,
    )
outcome-connect_with_timeout kernel r n timeout timeout_ms now (a ∷ rest) so late w resumed s hooked
      ready h =
    rw (connect_tries kernel r timeout timeout_ms now a rest w hooked)
      (elim (Bool-cases (int_eq a.value (pos 0))) [
        | inl e ↦ rw (connect_after, e) refl
        | inr e ↦ elim (Bool-cases (fails_with einprogress a)) [
          | inr f ↦ rw (connect_after, e, f) refl
          | inl f ↦
              let (timer, after, yields) =
                suspend_yields kernel r n timeout_ms s now rest _ (zeroed r.event n w ready) in
              rw (connect_suspends kernel r timeout_ms now a rest w e f ready.managed, yields, e, f)
                (outcome-resume_connect timer so late resumed h)
        ]
      ])
