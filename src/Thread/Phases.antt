-- ===== src/Thread/Phases.antt =====
-- src/thread.cpp: what the places of the two threads say of the object.
use coroutine_lib.Prelude.{
  ℕ, Bool, true, false, Option, none, some, List, [], ◌∷◌, if◌then◌else◌, ◌≡◌, refl, arith,
}
use coroutine_lib.Thread.Start.{
  OwnerPc, creating, failed, constructed, joined, destroyed, RunPc, not_started, entered,
  initialised, signalled, in_callback, ended,
}

-- What the place of `run` says of the object: whether the number is set, the callbacks left in
-- `m_cb` and taken from it, the calls, and the signals.
abbrev pub has_id : RunPc → Bool
has_id not_started = false
has_id entered = false
has_id pc = true

abbrev pub left : ℕ → RunPc → Option ℕ
left cb not_started = some cb
left cb entered = some cb
left cb initialised = some cb
left cb pc = none

abbrev pub taken : ℕ → RunPc → Option ℕ
taken cb not_started = none
taken cb entered = none
taken cb initialised = none
taken cb pc = some cb

abbrev pub runs : ℕ → RunPc → List ℕ
runs cb in_callback = cb ∷ []
runs cb ended = cb ∷ []
runs cb pc = []

abbrev pub posted : RunPc → ℕ
posted signalled = 1
posted in_callback = 1
posted ended = 1
posted pc = 0

-- What the place of the owner says: whether there is a thread, and whether the semaphore was passed.
abbrev pub has_created : OwnerPc → Bool
has_created creating = false
has_created failed = false
has_created pc = true

abbrev pub has_returned : OwnerPc → Bool
has_returned constructed = true
has_returned joined = true
has_returned destroyed = true
has_returned pc = false

abbrev pub passed : OwnerPc → ℕ
passed pc = if has_returned pc then 1 else 0

abbrev pub has_started : RunPc → Bool
has_started not_started = false
has_started pc = true

pub unstarted : (r : RunPc) → has_started r ≡ false → r ≡ not_started
unstarted not_started h = refl
unstarted r h = absurd (ground arith)
