-- ===== src/Fiber/EntryPoint.antt =====
-- src/fiber.cpp, `InitFiberContextStack`: the first stack pointer of a fiber.
use coroutine_lib.Prelude.{
  ℕ, ◌+◌, ◌%◌, ◌≤◌, ◌<◌, ◌≡◌, refl, ap, ◌∙◌, ◌⊎◌, true, false, none, some, List, [], ◌∷◌, ◌==◌,
  if◌then◌else◌, arith, ==_self,
}
use coroutine_lib.Fiber.SharedStack.{Stacks, write_bytes, entry_sp, put_fiber, init_fiber_context}

-- A stack pointer as the ABI wants it at the entry of a function, with its word on the stack.
pub record IsEntry (stack size sp : ℕ) : Type 0 where
  pub aligned : (sp + 8) % 16 ≡ 0
  pub above : stack ≤ sp
  pub below : sp + 8 ≤ stack + size

entry_sp-IsEntry : (stack size : ℕ) → 23 ≤ size → IsEntry stack size (entry_sp stack size)
entry_sp-IsEntry stack size h = record {
  aligned = omega (arith, h);
  above = omega (arith, h);
  below = omega (arith, h);
}

abbrev zeroes : List ℕ
zeroes = 0 ∷ 0 ∷ 0 ∷ 0 ∷ 0 ∷ 0 ∷ 0 ∷ 0 ∷ []

write_bytes_outside :
    (memory : ℕ → ℕ) (a q : ℕ) → (q < a) ⊎ (a + 8 ≤ q) → write_bytes memory a zeroes q ≡ memory q
unfolding write_bytes
write_bytes_outside memory a q h = ground (arith, h)

write_bytes_first : (memory : ℕ → ℕ) (a : ℕ) → write_bytes memory a zeroes a ≡ 0
unfolding write_bytes
write_bytes_first memory a = ground arith

started : ℕ → ℕ → Stacks → Stacks
started f stack t =
    let sp = entry_sp stack (t.fibers f).stack_size in
    record (put_fiber f (record (t.fibers f) { sp = sp; ctx_initialized = true }) t) {
      memory = write_bytes t.memory sp zeroes;
    }

-- For a fiber with a stack of at least 23 bytes, `initFiberContext` succeeds: the first stack pointer
-- is 8 below a multiple of 16, its word lies on the stack and is zero at its start, the context is
-- marked as initialised, and the memory outside the stack is not changed.
pub init_fiber_context-IsEntry :
    (f stack q : ℕ) (t : Stacks)
    → (t.fibers f).stack ≡ some stack
    → 23 ≤ (t.fibers f).stack_size
    → (q < stack) ⊎ (stack + (t.fibers f).stack_size ≤ q)
    → (after : Stacks) × (init_fiber_context f t ≡ some after)
      × IsEntry stack (t.fibers f).stack_size (after.fibers f).sp
      × ((after.fibers f).ctx_initialized ≡ true)
      × (after.memory (after.fibers f).sp ≡ 0)
      × (after.memory q ≡ t.memory q)
unfolding init_fiber_context started
init_fiber_context-IsEntry f stack q t h big out =
    let v = t.fibers f in
    let sp = entry_sp stack v.stack_size in
    let e = entry_sp-IsEntry stack v.stack_size big in
    let some_size : (v.stack_size == 0) ≡ false = ground (arith, big) in
    let self = ==_self f in
    (
      started f stack t,
      ap
            (λ o. elim o [
              | none ↦ none
              | some x ↦ if v.stack_size == 0 then none else some (started f x t)
            ])
            h
          ∙ rw some_size refl,
      rw self e,
      rw self refl,
      rw self (write_bytes_first t.memory sp),
      write_bytes_outside t.memory sp q (omega (arith, out, e.above, e.below)),
    )
