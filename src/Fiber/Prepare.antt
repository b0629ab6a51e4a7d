-- ===== src/Fiber/Prepare.antt =====
-- src/fiber.cpp, `prepareSharedStack`: a fiber takes over its slot from the fiber that owns it.
use coroutine_lib.Prelude.{
  ℕ, zero, suc, ◌+◌, ◌%◌, Bool, false, Option, none, some, List, [], ◌∷◌, ◌==◌, if◌then◌else◌,
  length, get_elem?, u64_mod,
}
use coroutine_lib.Prelude.Int.{minus_one, int_eq}
use coroutine_lib.Fiber.SharedStack.{
  Slot, SlotPool, Stacks, put_fiber, put_slot, init_fiber_context, save_shared_stack_snapshot,
  save_current_shared_stack_snapshot, restore_shared_stack_snapshot,
}

infixl 5 ◌>>=◌
abbrev ◌>>=◌ : {A B : Type 0} → Option A → (A → Option B) → Option B
none >>= k = none
some a >>= k = k a

-- The constructor of `SharedStackPool`: its slots, from an address on.
abbrev make_slots : (ℕ → ℕ) → ℕ → ℕ → ℕ → Stacks → Stacks × List ℕ
make_slots malloc size zero p t = (t, [])
make_slots malloc size (suc n) p t =
    let slot : Slot = record { stack = malloc p; size = size; owner = none } in
    let (t', ps) = make_slots malloc size n (p + 1) (put_slot p slot t) in (t', p ∷ ps)

abbrev find_pool : ℕ → List (ℕ × SlotPool) → Option SlotPool
find_pool size [] = none
find_pool size ((key, pool) ∷ pools) = if key == size then some pool else find_pool size pools

abbrev set_pool : ℕ → SlotPool → List (ℕ × SlotPool) → List (ℕ × SlotPool)
set_pool size pool [] = (size, pool) ∷ []
set_pool size pool ((key, other) ∷ pools) =
    if key == size then (key, pool) ∷ pools else (key, other) ∷ set_pool size pool pools

-- `GetSharedStackPool`
unfoldable pub get_shared_stack_pool : (ℕ → ℕ) → ℕ → Stacks → Stacks × SlotPool
get_shared_stack_pool malloc size t =
    let count = if t.slot_count == 0 then 1 else t.slot_count in
    let (made, ps) = make_slots malloc size count t.fresh_slot t in
    let pool : SlotPool = record { slots = ps; next = 0 } in
    let fresh = record made {
      fresh_slot = t.fresh_slot + count;
      pools = set_pool size pool t.pools;
    } in
    elim (find_pool size t.pools) [ some old ↦ (t, old) | none ↦ (fresh, pool) ]

-- `acquireSlot`
unfoldable pub acquire_slot : SlotPool → Option (SlotPool × ℕ)
acquire_slot pool =
    let advanced = record pool { next = (pool.next + 1) % u64_mod } in
    elim pool.slots [
      | [] ↦ none
      | p ∷ ps ↦ elim (get_elem? (p ∷ ps) (pool.next % length (p ∷ ps))) [
        | none ↦ none
        | some q ↦ some (advanced, q)
      ]
    ]

-- The parts of `prepareSharedStack`: the fiber belongs to one thread;
unfoldable pub bind_thread : ℕ → Stacks → Option Stacks
bind_thread f t =
    let v = t.fibers f in
    if int_eq v.owner_thread minus_one
    then some (put_fiber f (record v { owner_thread = t.thread_id }) t)
    else if int_eq v.owner_thread t.thread_id
    then some t
    else none

-- it gets a slot, which it keeps;
unfoldable pub take_slot : (ℕ → ℕ) → ℕ → Stacks → Option (Stacks × ℕ)
unfolding get_shared_stack_pool acquire_slot
take_slot malloc f t =
    let v = t.fibers f in
    let (t', pool) = get_shared_stack_pool malloc v.stack_size t in
    elim v.slot [
      | some p ↦ some (t, p)
      | none ↦ elim (acquire_slot pool) [
        | none ↦ none
        | some (pool', p) ↦
            let s = t'.slot_at p in
            let v' = record v { slot = some p; stack = some s.stack; stack_size = s.size } in
            let t'' = put_fiber f v' t' in
            some (record t'' { pools = set_pool v.stack_size pool' t'.pools }, p)
      ]
    ]

-- its context starts at the top of the slot;
unfoldable pub start_context : ℕ → ℕ → Stacks → Option Stacks
unfolding init_fiber_context
start_context f p t =
    let v = t.fibers f in
    let s = t.slot_at p in
    if v.ctx_initialized
    then some t
    else init_fiber_context f
        (put_fiber f (record v { stack = some s.stack; stack_size = s.size }) t)

-- `slot->owner.lock()`
abbrev pub lock_owner : ℕ → Stacks → Option ℕ
lock_owner p t = elim (t.slot_at p).owner [
  | none ↦ none
  | some g ↦ if t.alive g then some g else none
]

abbrev pub is_fiber : Option ℕ → ℕ → Bool
is_fiber none f = false
is_fiber (some g) f = g == f

-- what the owner of the slot has on the stack is saved,
unfoldable pub save_owner : ℕ → ℕ → Stacks → Option Stacks
unfolding save_shared_stack_snapshot save_current_shared_stack_snapshot
save_owner marker g t =
    if is_fiber t.current g
    then save_current_shared_stack_snapshot marker g t
    else save_shared_stack_snapshot g t

-- and what the fiber had there is restored, unless it is the owner.
unfoldable pub restore_fiber : ℕ → ℕ → Stacks → Option Stacks
unfolding restore_shared_stack_snapshot
restore_fiber f p t = elim (restore_shared_stack_snapshot f t) [
  | none ↦ none
  | some t' ↦ some (put_slot p (record (t'.slot_at p) { owner = some f }) t')
]

unfoldable pub take_over : ℕ → ℕ → ℕ → Stacks → Option Stacks
unfolding save_owner restore_fiber
take_over marker f p t = elim (lock_owner p t) [
  | none ↦ restore_fiber f p t
  | some g ↦
      if g == f
      then some t
      else elim (save_owner marker g t) [ none ↦ none | some t' ↦ restore_fiber f p t' ]
]

-- `prepareSharedStack`
unfoldable pub prepare_shared_stack : (ℕ → ℕ) → ℕ → ℕ → Stacks → Option Stacks
unfolding bind_thread take_slot start_context take_over
prepare_shared_stack malloc marker f t = do
  t₁ ← bind_thread f t
  (t₂, p) ← take_slot malloc f t₁
  t₃ ← start_context f p t₂
  take_over marker f p t₃

-- The stack part of `reset`, for a fiber with a shared stack.
unfoldable pub reset_shared_stack : ℕ → Stacks → Option Stacks
unfolding init_fiber_context
reset_shared_stack f t =
    let v = record (t.fibers f) { snapshot = [] } in
    elim v.slot [
      | none ↦ some (put_fiber f (record v { ctx_initialized = false }) t)
      | some p ↦
          let s = t.slot_at p in
          init_fiber_context f
            (put_fiber f (record v { stack = some s.stack; stack_size = s.size }) t)
    ]
