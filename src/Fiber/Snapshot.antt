-- ===== src/Fiber/Snapshot.antt =====
-- src/fiber.cpp: how the bytes on a shared stack are saved and restored.
use coroutine_lib.Prelude.{
  ℕ, zero, suc, ◌+◌, ◌-◌, ◌≤◌, ◌<◌, ◌≡◌, refl, ap, ◌∙◌, true, false, some, List, [], ◌∷◌, ◌==◌, leb,
  if◌then◌else◌, length, is_empty, arith, Bool-cases, inl, inr, ==_self,
}
use coroutine_lib.Prelude.Int.{minus_one, int_eq, int_eq_iff}
use coroutine_lib.Fiber.SharedStack.{
  Slot, Stacks, read_bytes, write_bytes, put_fiber, put_slot, snapshot_from,
  save_shared_stack_snapshot, restore_shared_stack_snapshot,
}
use coroutine_lib.Fiber.Prepare.{
  bind_thread, take_slot, start_context, is_fiber, save_owner, restore_fiber, take_over,
  prepare_shared_stack,
}

pub length-read_bytes : (memory : ℕ → ℕ) (a n : ℕ) → length (read_bytes memory a n) ≡ n
unfolding read_bytes
length-read_bytes memory a zero = refl
length-read_bytes memory a (suc n) = ap suc (length-read_bytes memory (a + 1) n)

write_bytes_below :
    (memory : ℕ → ℕ) (a q : ℕ) (bytes : List ℕ) → q < a → write_bytes memory a bytes q ≡ memory q
unfolding write_bytes
write_bytes_below memory a q [] h = refl
write_bytes_below memory a q (b ∷ bytes) h =
    write_bytes_below (λ r. if a == r then b else memory r) (a + 1) q bytes (omega (arith, h))
    ∙ ground (arith, h)

read_bytes-write_bytes :
    (memory : ℕ → ℕ) (a : ℕ) (bytes : List ℕ)
    → read_bytes (write_bytes memory a bytes) a (length bytes) ≡ bytes
unfolding read_bytes write_bytes
read_bytes-write_bytes memory a [] = refl
read_bytes-write_bytes memory a (b ∷ bytes) =
    let memory' : ℕ → ℕ = λ r. if a == r then b else memory r in
    let first : write_bytes memory' (a + 1) bytes a ≡ b =
      write_bytes_below memory' (a + 1) a bytes (omega arith) ∙ rw (==_self a) refl in
    rw first (ap (λ bs. b ∷ bs) (read_bytes-write_bytes memory' (a + 1) bytes))

read_nothing :
    (memory : ℕ → ℕ) (a : ℕ) (bytes : List ℕ)
    → is_empty bytes ≡ true
    → read_bytes memory a (length bytes) ≡ bytes
unfolding read_bytes
read_nothing memory a [] h = refl
read_nothing memory a (b ∷ bytes) h = cc

-- A fiber with a context and a place on the slot `p`, below the slot's top.
pub record IsPlaced (f p : ℕ) (t : Stacks) : Type 0 where
  pub slot : (t.fibers f).slot ≡ some p
  pub started : (t.fibers f).ctx_initialized ≡ true
  pub thread : (t.fibers f).owner_thread ≡ t.thread_id
  pub real : int_eq t.thread_id minus_one ≡ false
  pub above : (t.slot_at p).stack ≤ (t.fibers f).sp
  pub below : (t.fibers f).sp ≤ (t.slot_at p).stack + (t.slot_at p).size

-- The bytes from the stack pointer of a fiber to the top of a slot.
abbrev pub frames : ℕ → Slot → Stacks → List ℕ
frames sp s t = read_bytes t.memory sp (s.stack + s.size - sp)

module _ (f p : ℕ) (t : Stacks) (h : IsPlaced f p t) where
  bound : bind_thread f t ≡ some t
  unfolding bind_thread
  bound =
      let no_new : int_eq (t.fibers f).owner_thread minus_one ≡ false = rw h.thread h.real in
      let same : int_eq (t.fibers f).owner_thread t.thread_id ≡ true =
        (int_eq_iff (t.fibers f).owner_thread t.thread_id).1 h.thread in
      simp (bind_thread, no_new, same)

  kept : (malloc : ℕ → ℕ) → take_slot malloc f t ≡ some (t, p)
  unfolding take_slot
  kept malloc = simp (take_slot, h.slot)

  running : start_context f p t ≡ some t
  unfolding start_context
  running = simp (start_context, h.started)

  pub prepare-take_over :
      (malloc : ℕ → ℕ) (marker : ℕ)
      → prepare_shared_stack malloc marker f t ≡ take_over marker f p t
  unfolding prepare_shared_stack
  prepare-take_over malloc marker = simp (prepare_shared_stack, bound, kept malloc, running)

  -- A paused owner is saved.
  unfoldable pub saved : Stacks
  saved = put_fiber f (record (t.fibers f) { snapshot = frames (t.fibers f).sp (t.slot_at p) t }) t

  pub saved-other : (other : ℕ) → (f == other) ≡ false → saved.fibers other ≡ t.fibers other
  unfolding saved
  saved-other other ne = rw ne refl

  pub save_owner_saves :
      (marker : ℕ) → is_fiber t.current f ≡ false → save_owner marker f t ≡ some saved
  unfolding save_owner save_shared_stack_snapshot snapshot_from saved
  save_owner_saves marker other =
      let above : leb (t.slot_at p).stack (t.fibers f).sp ≡ true = ground (arith, h.above) in
      let below : leb (t.fibers f).sp ((t.slot_at p).stack + (t.slot_at p).size) ≡ true =
        ground (arith, h.below) in
      simp (
        save_owner, other, save_shared_stack_snapshot, h.slot, h.started, snapshot_from, above,
        below,
      )

-- What was read stands where it is written.
restored_memory : ℕ → Slot → Stacks → ℕ → ℕ
restored_memory f s t =
    write_bytes t.memory (s.stack + s.size - length (t.fibers f).snapshot) (t.fibers f).snapshot

-- A fiber's snapshot is put back, and the fiber owns the slot.
pub record IsRestored (f p : ℕ) (t after : Stacks) : Type 0 where
  pub ends : restore_fiber f p t ≡ some after
  pub fibers : after.fibers ≡ t.fibers
  pub owned : (after.slot_at p).owner ≡ some f
  pub bytes :
      read_bytes after.memory
        ((t.slot_at p).stack + (t.slot_at p).size - length (t.fibers f).snapshot)
        (length (t.fibers f).snapshot)
      ≡ (t.fibers f).snapshot

pub restore_fiber-IsRestored :
    (f p : ℕ) (t : Stacks)
    → (t.fibers f).slot ≡ some p
    → length (t.fibers f).snapshot ≤ (t.slot_at p).size
    → (after : Stacks) × IsRestored f p t after
unfolding restore_fiber restore_shared_stack_snapshot restored_memory
restore_fiber-IsRestored f p t at fits = elim (Bool-cases (is_empty (t.fibers f).snapshot)) [
  | inl e ↦ (
    put_slot p (record (t.slot_at p) { owner = some f }) t,
    record {
      ends = simp (restore_fiber, restore_shared_stack_snapshot, at, e);
      fibers = refl;
      owned = rw (==_self p) refl;
      bytes = read_nothing t.memory _ (t.fibers f).snapshot e;
    },
  )
  | inr e ↦
      let room : leb (length (t.fibers f).snapshot) (t.slot_at p).size ≡ true =
        ground (arith, fits) in
      (
        put_slot p (record (t.slot_at p) { owner = some f })
            (record t { memory = restored_memory f (t.slot_at p) t }),
        record {
          ends = simp (restore_fiber, restore_shared_stack_snapshot, at, e, room);
          fibers = refl;
          owned = rw (==_self p) refl;
          bytes = read_bytes-write_bytes t.memory _ (t.fibers f).snapshot;
        },
      )
]
