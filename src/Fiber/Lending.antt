-- ===== src/Fiber/Lending.antt =====
-- src/fiber.cpp, `prepareSharedStack`: fibers that use one slot in turn.
use coroutine_lib.Prelude.{
  ℕ, ◌+◌, ◌-◌, ◌≤◌, ◌≡◌, ◌≢◌, refl, sym, ap, ◌∙◌, false, none, some, ◌==◌, length, arith, inl, inr,
  ==_self, ◌⊎◌,
}
use coroutine_lib.Fiber.SharedStack.{Stacks, read_bytes}
use coroutine_lib.Fiber.Prepare.{lock_owner, is_fiber, take_over, prepare_shared_stack}
use coroutine_lib.Fiber.Snapshot.{
  length-read_bytes, IsPlaced, frames, prepare-take_over, saved, saved-other, save_owner_saves,
  restore_fiber-IsRestored,
}

-- The slot has no owner that lives, or another fiber owns it, which has yielded.
abbrev pub IsAvailable : ℕ → ℕ → Stacks → Type 0
IsAvailable f p t =
    (lock_owner p t ≡ none)
    ⊎ ((g : ℕ) × (lock_owner p t ≡ some g)
        × (g ≢ f)
        × IsPlaced g p t
        × (is_fiber t.current g ≡ false))

-- `prepareSharedStack` gives the slot to the fiber, with what its snapshot holds.
record IsPrepared (malloc : ℕ → ℕ) (marker f p : ℕ) (t after : Stacks) : Type 0 where
  ends : prepare_shared_stack malloc marker f t ≡ some after
  owned : (after.slot_at p).owner ≡ some f
  bytes :
      read_bytes after.memory
        ((t.slot_at p).stack + (t.slot_at p).size - length (t.fibers f).snapshot)
        (length (t.fibers f).snapshot)
      ≡ (t.fibers f).snapshot

prepare-IsPrepared :
    (malloc : ℕ → ℕ) (marker f p : ℕ) (t : Stacks)
    → IsPlaced f p t
    → length (t.fibers f).snapshot ≤ (t.slot_at p).size
    → IsAvailable f p t
    → (after : Stacks) × IsPrepared malloc marker f p t after
unfolding take_over saved
prepare-IsPrepared malloc marker f p t placed_f fits available = elim available [
  | inl none_left ↦
      let (after, r) = restore_fiber-IsRestored f p t placed_f.slot fits in
      (
        after,
        record {
          ends =
              prepare-take_over f p t placed_f malloc marker ∙ simp (take_over, none_left, r.ends);
          owned = r.owned;
          bytes = r.bytes;
        },
      )
  | inr (g, owns, ne, placed, paused) ↦
      let t' = saved g p t placed in
      let other : (g == f) ≡ false = ground (arith, ne) in
      let same : t'.fibers f ≡ t.fibers f = saved-other g p t placed f other in
      let (after, r) = restore_fiber-IsRestored f p t' (rw same placed_f.slot) (rw same fits) in
      (
        after,
        record {
          ends =
              prepare-take_over f p t placed_f malloc marker
              ∙ simp (take_over, owns, other, save_owner_saves g p t placed marker paused, r.ends);
          owned = r.owned;
          bytes = rw same at r.bytes;
        },
      )
]

some_injective : {A : Type 0} (a b : A) → some a ≡ some b → a ≡ b
some_injective a b h = ap (λ o. elim o [ none ↦ a | some x ↦ x ]) h

-- Another fiber takes the slot over from one that has yielded: its stack is in its snapshot.
prepare_keeps :
    (malloc : ℕ → ℕ) (marker f g p : ℕ) (t t₁ : Stacks)
    → f ≢ g
    → (h : IsPlaced f p t) → lock_owner p t ≡ some f
    → is_fiber t.current f ≡ false
    → IsPlaced g p t
    → length (t.fibers g).snapshot ≤ (t.slot_at p).size
    → prepare_shared_stack malloc marker g t ≡ some t₁
    → t₁.fibers f ≡ record (t.fibers f) { snapshot = frames (t.fibers f).sp (t.slot_at p) t }
unfolding take_over saved
prepare_keeps malloc marker f g p t t₁ ne h owns paused placed fits ends =
    let t' = saved f p t h in
    let other : (f == g) ≡ false = ground (arith, ne) in
    let same : t'.fibers g ≡ t.fibers g = saved-other f p t h g other in
    let (after, r) = restore_fiber-IsRestored g p t' (rw same placed.slot) (rw same fits) in
    let made : prepare_shared_stack malloc marker g t ≡ some after =
      prepare-take_over g p t placed malloc marker
      ∙ simp (take_over, owns, other, save_owner_saves f p t h marker paused, r.ends) in
    ap (λ x. x.fibers f) (some_injective t₁ after (sym ends ∙ made))
    ∙ ap (λ x. x f) r.fibers
    ∙ rw (==_self f) refl

-- For another fiber that has a context and a place on its slot: let a fiber, which has yielded, own
-- that slot and lie on it, and let the other take the slot over. Whatever happens then, also to the
-- memory, as long as the record of the first fiber, the place of the slot and the thread stay, if
-- the slot has no living owner or another fiber's that has yielded: the first fiber can be
-- prepared again, owns the slot, and finds the bytes from its stack pointer to the top of the
-- slot as they were when it had yielded.
pub prepare_round_trip :
    (malloc : ℕ → ℕ) (marker marker' f g p : ℕ) (t t₁ t₂ : Stacks)
    → f ≢ g
    → IsPlaced f p t
    → lock_owner p t ≡ some f
    → is_fiber t.current f ≡ false
    → IsPlaced g p t
    → length (t.fibers g).snapshot ≤ (t.slot_at p).size
    → prepare_shared_stack malloc marker g t ≡ some t₁
    → t₂.fibers f ≡ t₁.fibers f
    → (t₂.slot_at p).stack ≡ (t.slot_at p).stack
    → (t₂.slot_at p).size ≡ (t.slot_at p).size
    → t₂.thread_id ≡ t.thread_id
    → IsAvailable f p t₂
    → (t₃ : Stacks) × (prepare_shared_stack malloc marker' f t₂ ≡ some t₃)
      × ((t₃.slot_at p).owner ≡ some f)
      × (frames (t.fibers f).sp (t.slot_at p) t₃ ≡ frames (t.fibers f).sp (t.slot_at p) t)
prepare_round_trip malloc marker marker' f g p t t₁ t₂ ne h owns paused placed fits ends kept stack
      size thread available =
    let s = t.slot_at p in
    let n = s.stack + s.size - (t.fibers f).sp in
    let v = kept ∙ prepare_keeps malloc marker f g p t t₁ ne h owns paused placed fits ends in
    let long : length (t₂.fibers f).snapshot ≡ n =
      ap (λ x. length x.snapshot) v ∙ length-read_bytes t.memory (t.fibers f).sp n in
    let placed₂ : IsPlaced f p t₂ = record {
      slot = ap (λ x. x.slot) v ∙ h.slot;
      started = ap (λ x. x.ctx_initialized) v ∙ h.started;
      thread = ap (λ x. x.owner_thread) v ∙ h.thread ∙ sym thread;
      real = rw thread h.real;
      above = rw (stack, ap (λ x. x.sp) v) h.above;
      below = rw (stack, size, ap (λ x. x.sp) v) h.below;
    } in
    let (t₃, r) =
      prepare-IsPrepared malloc marker' f p t₂ placed₂ (omega (arith, long, size, h.above, h.below))
        available in
    let start : (t₂.slot_at p).stack + (t₂.slot_at p).size - length (t₂.fibers f).snapshot
        ≡ (t.fibers f).sp =
      omega (arith, long, stack, size, h.above, h.below) in
    (t₃, r.ends, r.owned, rw (start, long) at r.bytes ∙ ap (λ x. x.snapshot) v)
