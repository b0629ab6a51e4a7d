-- ===== src/Thread/Examples.antt =====
-- A thread that is made and joined.
use coroutine_lib.Prelude.{◌≡◌, refl}
use coroutine_lib.Prelude.Int.{pos}
use coroutine_lib.Thread.{
  members, create, initialise, swap_cb, semaphore_wait, semaphore_signal, join,
}
use coroutine_lib.Thread.Start.{
  asleep, joined, System, start, Reach, here, next, creates, waits, inits, swaps, signals, wakes,
  passes, calls, returns, joins,
}
use coroutine_lib.Thread.Handshake.{Handshake, start-Handshake}

-- The constructor goes to sleep before the new thread has done anything.
abbrev asleep_early : (a : System) × Reach (pos 77) (start 5 1) a × (a.owner ≡ asleep)
unfolding create semaphore_wait members
asleep_early = (_, next (next here (creates (pos 0) _ refl refl)) (waits refl refl), refl)

-- It wakes, returns, and joins the thread.
abbrev joined_last : (a : System) × Reach (pos 77) (start 5 1) a × (a.owner ≡ joined)
unfolding create semaphore_wait members initialise swap_cb semaphore_signal join
joined_last = (
  _,
  next
      (next
        (next
          (next
            (next (next (next (next asleep_early.1 (inits refl)) (swaps refl)) (signals refl))
              (wakes refl))
            (passes 0 refl refl))
          (calls 5 refl refl))
        (returns refl))
      (joins _ refl refl refl),
  refl,
)

start-Handshake_example : Handshake 5 (pos 77) joined_last.0
start-Handshake_example = start-Handshake 5 1 (pos 77) joined_last.0 joined_last.1
