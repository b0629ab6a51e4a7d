-- ===== src/Fiber/SharedStack.antt =====
-- src/fiber.cpp: fibers that share a stack, and the snapshots that keep what was on it.
-- The memory is a function from addresses to bytes; `malloc` is a parameter that gives the stack of
-- each slot. Fibers and slots are objects at addresses. A failed assertion is `none`.
use coroutine_lib.Prelude.{
  ℕ, zero, suc, ◌+◌, ◌-◌, ◌%◌, Bool, true, ◌&&◌, not, Option, none, some, List, [], ◌∷◌, ◌==◌, leb,
  if◌then◌else◌, length, is_empty,
}
use coroutine_lib.Prelude.Int.{ℤ}

pub record Slot : Type 0 where
  pub stack : ℕ
  pub size : ℕ
  pub owner : Option ℕ  -- a weak pointer

pub record SlotPool : Type 0 where
  pub slots : List ℕ
  pub next : ℕ  -- size_t

-- What `Fiber` holds for its stack.
pub record StackFiber : Type 0 where
  pub stack : Option ℕ
  pub stack_size : ℕ
  pub sp : ℕ  -- the stack pointer of `m_ctx`
  pub ctx_initialized : Bool
  pub owner_thread : ℤ
  pub slot : Option ℕ
  pub snapshot : List ℕ

-- The memory, the objects, and the pools of the thread by their stack size.
pub record Stacks : Type 0 where
  pub memory : ℕ → ℕ
  pub slot_at : ℕ → Slot
  pub fresh_slot : ℕ
  pub pools : List (ℕ × SlotPool)
  pub slot_count : ℕ
  pub fibers : ℕ → StackFiber
  pub alive : ℕ → Bool  -- whether a weak pointer to the fiber can be locked
  pub current : Option ℕ  -- `t_fiber`
  pub thread_id : ℤ

-- `memcpy` from the memory and into it.
unfoldable pub read_bytes : (ℕ → ℕ) → ℕ → ℕ → List ℕ
read_bytes memory a zero = []
read_bytes memory a (suc n) = memory a ∷ read_bytes memory (a + 1) n

unfoldable pub write_bytes : (ℕ → ℕ) → ℕ → List ℕ → ℕ → ℕ
write_bytes memory a [] = memory
write_bytes memory a (b ∷ bytes) = write_bytes (λ q. if a == q then b else memory q) (a + 1) bytes

abbrev pub put_fiber : ℕ → StackFiber → Stacks → Stacks
put_fiber f v t = record t { fibers = λ g. if f == g then v else t.fibers g }

abbrev pub put_slot : ℕ → Slot → Stacks → Stacks
put_slot p s t = record t { slot_at = λ q. if p == q then s else t.slot_at q }

-- `AlignDown` to 16, and the first stack pointer of a context on x86-64.
abbrev pub align_down : ℕ → ℕ
align_down value = value - value % 16

abbrev pub entry_sp : ℕ → ℕ → ℕ
entry_sp stack size = align_down (stack + size) - 8

-- `initFiberContext`, with `InitFiberContextStack`.
unfoldable pub init_fiber_context : ℕ → Stacks → Option Stacks
unfolding write_bytes
init_fiber_context f t =
    let v = t.fibers f in
    elim v.stack [
      | none ↦ none
      | some stack ↦
          let sp = entry_sp stack v.stack_size in
          let zeroes = 0 ∷ 0 ∷ 0 ∷ 0 ∷ 0 ∷ 0 ∷ 0 ∷ 0 ∷ [] in
          let t' = put_fiber f (record v { sp = sp; ctx_initialized = true }) t in
          if v.stack_size == 0
          then none
          else some (record t' { memory = write_bytes t.memory sp zeroes })
    ]

-- The bytes from a stack pointer to the top of a slot; the pointer must lie on it.
unfoldable pub snapshot_from : ℕ → Slot → (ℕ → ℕ) → Option (List ℕ)
unfolding read_bytes
snapshot_from sp s memory =
    let top = s.stack + s.size in
    if leb s.stack sp && leb sp top then some (read_bytes memory sp (top - sp)) else none

-- `saveSharedStackSnapshot`, for a fiber with a shared stack.
unfoldable pub save_shared_stack_snapshot : ℕ → Stacks → Option Stacks
unfolding snapshot_from
save_shared_stack_snapshot f t =
    let v = t.fibers f in
    elim v.slot [
      | none ↦ some t
      | some p ↦
          if not v.ctx_initialized
          then some t
          else elim (snapshot_from v.sp (t.slot_at p) t.memory) [
            | none ↦ none
            | some bytes ↦ some (put_fiber f (record v { snapshot = bytes }) t)
          ]
    ]

-- `saveCurrentSharedStackSnapshot`; `marker` is the address of its local variable.
unfoldable pub save_current_shared_stack_snapshot : ℕ → ℕ → Stacks → Option Stacks
unfolding snapshot_from
save_current_shared_stack_snapshot marker f t =
    let v = t.fibers f in
    elim v.slot [
      | none ↦ some t
      | some p ↦ elim (snapshot_from marker (t.slot_at p) t.memory) [
        | none ↦ none
        | some bytes ↦ some (put_fiber f (record v { snapshot = bytes }) t)
      ]
    ]

-- `restoreSharedStackSnapshot`
unfoldable pub restore_shared_stack_snapshot : ℕ → Stacks → Option Stacks
unfolding write_bytes
restore_shared_stack_snapshot f t =
    let v = t.fibers f in
    elim v.slot [
      | none ↦ some t
      | some p ↦
          let s = t.slot_at p in
          let used = length v.snapshot in
          if is_empty v.snapshot
          then some t
          else if not (leb used s.size)
          then none
          else some
              (record t { memory = write_bytes t.memory (s.stack + s.size - used) v.snapshot })
    ]
