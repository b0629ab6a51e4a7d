-- ===== src/Fiber/Examples.antt =====
-- The thread's own fiber 0 resumes fiber 1, which calls fiber 2.
use coroutine_lib.Prelude.{
  ℕ, true, false, none, some, List, [], ◌∷◌, ◌==◌, if◌then◌else◌, ◌≡◌, refl, arith,
}
use coroutine_lib.Prelude.{inr}
use coroutine_lib.Prelude.Int.{pos}
use coroutine_lib.Fiber.SharedStack.{StackFiber, Stacks, read_bytes, init_fiber_context}
use coroutine_lib.Fiber.Prepare.{
  prepare_shared_stack, bind_thread, take_slot, start_context, take_over, save_owner,
}
use coroutine_lib.Fiber.Snapshot.{IsPlaced, frames}
use coroutine_lib.Fiber.Lending.{prepare_round_trip}
use coroutine_lib.Fiber.EntryPoint.{IsEntry, init_fiber_context-IsEntry}
use coroutine_lib.Fiber.{ready, running}
use coroutine_lib.Fiber.Transfer.{Fiber, Thread, put, swap, resume, call, call_ok}
use coroutine_lib.Fiber.Chain.{IsChain}
use coroutine_lib.Fiber.Return.{Step, resumes, calls, here, next, control_returns}

abbrev waiting_fiber : Fiber
waiting_fiber = record {
  state = ready;
  cb = some 7;
  parent = none;
  return_to_parent = false;
  run_in_scheduler = true;
  use_shared_stack = false;
}

abbrev own_fiber : Fiber
own_fiber = record {
  state = running;
  cb = none;
  parent = none;
  return_to_parent = false;
  run_in_scheduler = false;
  use_shared_stack = false;
}

abbrev idle_thread : Thread
idle_thread = record {
  fibers = λ f. if 0 == f then own_fiber else waiting_fiber;
  alive = λ f. true;
  current = 0;
  thread_fiber = 0;
  scheduler_fiber = 0;
  code = 0;
  saved = λ f. f;
}

idle_thread-IsChain : IsChain idle_thread (0 ∷ [])
idle_thread-IsChain = record {
  linked = refl;
  rest = [];
  top = refl;
  code = refl;
  saved = λ f. refl;
  runs = λ f h. ground arith;
  all = λ f h. ground arith;
  unique = (refl, tt);
  flags = λ f h. ground arith;
  lives = λ f h. refl;
}

abbrev in_first : Thread
in_first = swap 0 1 (record idle_thread {
  fibers = put idle_thread.fibers 1 (record waiting_fiber { state = running });
  current = 1;
})

first_resumed : resume 1 idle_thread ≡ some in_first
unfolding resume
first_resumed = refl

first_step : Step idle_thread in_first
first_step = resumes 1 in_first refl refl first_resumed

abbrev in_second : Thread
in_second = (call 2 in_first).0

second_called : call 2 in_first ≡ (in_second, call_ok)
unfolding call swap
second_called = refl

second_alive : in_first.alive 2 ≡ true
unfolding swap
second_alive = refl

control_returns_example : (after : List ℕ) × IsChain in_second after
control_returns_example =
    control_returns idle_thread-IsChain
      (next (next here first_step) (calls 2 in_second second_alive second_called))

-- Fibers that share the 64 bytes from address 1000 on, each of which has yielded at 1040.
abbrev sharing : StackFiber
sharing = record {
  stack = some 1000;
  stack_size = 64;
  sp = 1040;
  ctx_initialized = true;
  owner_thread = pos 5;
  slot = some 0;
  snapshot = [];
}

abbrev owned_by : ℕ → (ℕ → ℕ) → Stacks
owned_by f memory = record {
  memory = memory;
  slot_at = λ p. record { stack = 1000; size = 64; owner = some f };
  fresh_slot = 1;
  pools = [];
  slot_count = 1;
  fibers = λ g. sharing;
  alive = λ g. true;
  current = none;
  thread_id = pos 5;
}

abbrev before : Stacks
before = owned_by 1 (λ q. q)

before-IsPlaced : (f : ℕ) → IsPlaced f 0 before
before-IsPlaced f = record {
  slot = refl;
  started = refl;
  thread = refl;
  real = refl;
  above = omega arith;
  below = omega arith;
}

-- Fiber 2 has taken the slot over,
abbrev lent : Stacks
lent = record before {
  slot_at =
      λ p. if 0 == p then record { stack = 1000; size = 64; owner = some 2 } else before.slot_at p;
  fibers =
      λ g. if 1 == g then record sharing { snapshot = read_bytes (λ q. q) 1040 24 } else sharing;
}

-- and then written over all of the stack.
abbrev overwritten : Stacks
overwritten = record lent { memory = λ q. 0 }

overwritten-IsPlaced : IsPlaced 2 0 overwritten
overwritten-IsPlaced = record {
  slot = refl;
  started = refl;
  thread = refl;
  real = refl;
  above = omega arith;
  below = omega arith;
}

prepare_round_trip_example :
    (after : Stacks) × (prepare_shared_stack (λ p. 0) 0 1 overwritten ≡ some after)
    × ((after.slot_at 0).owner ≡ some 1)
    × (frames 1040 (before.slot_at 0) after ≡ frames 1040 (before.slot_at 0) before)
unfolding prepare_shared_stack bind_thread take_slot start_context take_over save_owner
prepare_round_trip_example =
    prepare_round_trip (λ p. 0) 0 0 1 2 0 before lent overwritten (λ e. omega (arith, e))
      (before-IsPlaced 1) refl refl (before-IsPlaced 2) (omega arith) refl refl refl refl refl
      (inr (2, refl, (λ e. omega (arith, e)), overwritten-IsPlaced, refl))

init_fiber_context-IsEntry_example :
    (after : Stacks) × (init_fiber_context 1 before ≡ some after)
    × IsEntry 1000 64 (after.fibers 1).sp
    × ((after.fibers 1).ctx_initialized ≡ true)
    × (after.memory (after.fibers 1).sp ≡ 0)
    × (after.memory 2000 ≡ 2000)
init_fiber_context-IsEntry_example =
    init_fiber_context-IsEntry 1 1000 2000 before refl (omega arith) (inr (omega arith))
