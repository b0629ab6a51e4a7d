-- ===== src/Thread/Progress.antt =====
-- src/thread.cpp: the constructor of a `Thread` is never stuck.
use coroutine_lib.Prelude.{◌≡◌}
use coroutine_lib.Prelude.Int.{ℤ}
use coroutine_lib.Thread.Start.{testing, constructed, System, Reach, here, next}
use coroutine_lib.Thread.Phases.{posted}

both : {tid : ℤ} {a b c : System} → Reach tid a b → Reach tid b c → Reach tid a c
both r here = r
both r (next s last) = next (both r s) last

-- A way on to a state in which the new thread has signalled and the constructor waits.
record Signals (tid : ℤ) (a : System) : Type 0 where
  after : System
  path : Reach tid a after
  waiting : after.owner ≡ testing
  posts : posted after.runner ≡ 1

-- A way to the return of the constructor.
pub record CanReturn (tid : ℤ) (a : System) : Type 0 where
  pub after : System
  pub path : Reach tid a after
  pub returned : after.owner ≡ constructed
