-- ===== src/Thread/Start.antt =====
-- src/thread.cpp: the constructor of a `Thread` and `run`, on two threads, as a step relation.
use coroutine_lib.Prelude.{ℕ, Bool, true, false, Option, none, some, List, [], ◌∷◌, ◌≡◌}
use coroutine_lib.Prelude.Int.{ℤ, pos}
use coroutine_lib.Thread.{
  Thread, Locals, semaphore_wait, semaphore_signal, members, create, initialise, swap_cb, join,
  destroy, set_name,
}

-- Where the thread that has the object stands.
pub data OwnerPc : Type 0 where
  creating : OwnerPc  -- before `pthread_create`
  failed : OwnerPc  -- the constructor has thrown
  testing : OwnerPc  -- in `m_semaphore.wait`, before the test of the count
  asleep : OwnerPc  -- in `cv.wait`
  constructed joined destroyed : OwnerPc

-- Where `run` stands.
pub data RunPc : Type 0 where
  not_started entered initialised swapped signalled in_callback ended : RunPc

pub record System : Type 0 where
  pub thread : Thread
  pub locals : Locals
  pub own_cb : Option ℕ  -- the local `cb` of `run`
  pub called : List ℕ
  pub owner : OwnerPc
  pub runner : RunPc
  pub woken : Bool  -- `notify_one` was called since the owner went to sleep

abbrev pub start : ℕ → ℕ → System
unfolding members
start cb name = record {
  thread = members cb name;
  locals = record { has_thread = false; name = none };
  own_cb = none;
  called = [];
  owner = creating;
  runner = not_started;
  woken = false;
}

-- A step of one of the two threads. `cv.wait` may return without a notification. `pthread_join`
-- returns 0 when the thread has ended. The callback may call `SetName`.
pub data Step (tid : ℤ) (a : System) : System → Type 0 where
  create_fails :
      (rt : ℤ)
      → a.owner ≡ creating
      → create rt a.thread ≡ none
      → Step tid a (record a { owner = failed })
  creates :
      (rt : ℤ) (t : Thread)
      → a.owner ≡ creating
      → create rt a.thread ≡ some t
      → Step tid a (record a { thread = t; owner = testing; runner = entered })
  waits :
      a.owner ≡ testing
      → semaphore_wait a.thread.count ≡ none
      → Step tid a (record a { owner = asleep; woken = false })
  wakes : a.owner ≡ asleep → Step tid a (record a { owner = testing })
  passes :
      (count : ℕ)
      → a.owner ≡ testing
      → semaphore_wait a.thread.count ≡ some count
      → Step tid a (record a { thread = record a.thread { count = count }; owner = constructed })
  inits :
      a.runner ≡ entered
      → Step tid a (record a {
        thread = (initialise tid a.thread).0;
        locals = (initialise tid a.thread).1;
        runner = initialised;
      })
  swaps :
      a.runner ≡ initialised
      → Step tid a (record a {
        thread = (swap_cb a.thread).0;
        own_cb = (swap_cb a.thread).1;
        runner = swapped;
      })
  signals :
      a.runner ≡ swapped
      → Step tid a (record a {
        thread = record a.thread { count = semaphore_signal a.thread.count };
        runner = signalled;
        woken = true;
      })
  calls :
      (f : ℕ)
      → a.runner ≡ signalled
      → a.own_cb ≡ some f
      → Step tid a (record a { called = f ∷ a.called; runner = in_callback })
  renames :
      (name : ℕ)
      → a.runner ≡ in_callback
      → Step tid a (record a {
        locals = (set_name name a.locals a.thread).0;
        thread = (set_name name a.locals a.thread).1;
      })
  returns : a.runner ≡ in_callback → Step tid a (record a { runner = ended })
  joins :
      (t : Thread)
      → a.owner ≡ constructed
      → a.runner ≡ ended
      → join (pos 0) a.thread ≡ some t
      → Step tid a (record a { thread = t; owner = joined })
  destroys :
      a.owner ≡ constructed
      → Step tid a (record a { thread = (destroy a.thread).0; owner = destroyed })

pub data Reach (tid : ℤ) (a : System) : System → Type 0 where
  here : Reach tid a a
  next : {b c : System} → Reach tid a b → Step tid b c → Reach tid a c
