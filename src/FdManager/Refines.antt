-- ===== src/FdManager/Refines.antt =====
-- src/fd_manager.cpp: `FdManager` implements the map of Spec.
use coroutine_lib.Prelude.{
  ℕ, ◌<◌, ◌≡◌, ◌≢◌, refl, sym, ap, subst, ◌∙◌, true, false, none, some, [], ◌==◌, if◌then◌else◌,
  get_elem?, set, arith, length-set, get_elem?-set_ne, Option-cases, inl, inr, ==_self,
}
use native.Mathlib.Decide.{ℕ_discrete}
use coroutine_lib.Prelude.Int.{pos}
use coroutine_lib.FdManager.{FdCtx, FdManager, Descriptor, new_fd_ctx, resize, del, new_fd_manager}
use coroutine_lib.FdManager.Laws.{HasRoom, created, created-HasRoom}
use coroutine_lib.FdManager.Spec.{FdMap, update_map, see}
use coroutine_lib.FdManager.Slots.{
  slot_of, slot, get_elem?-set-none, slot-created, slot-created_other, some_inner, see_same,
  update_map_self, update_map_other, slot-resize,
}

-- No two descriptors share a context, the addresses were made, and the contexts are the map's.
pub record Represents (m : FdManager) (a : FdMap) : Type 0 where
  pub room : HasRoom m
  pub made : (fd p : ℕ) → slot m fd ≡ some p → p < m.fresh
  pub apart : (i j p : ℕ) → slot m i ≡ some p → slot m j ≡ some p → i ≡ j
  pub same : (fd : ℕ) → see m (slot m fd) ≡ a fd

module _ (m : FdManager) (a : FdMap) (r : Represents m a) (fd : ℕ) where
  pub created-Represents :
      (d : Descriptor)
      → slot m fd ≡ none
      → Represents (created d fd m) (update_map fd (some (new_fd_ctx d fd)) a)
  created-Represents d none_yet = record {
    room = created-HasRoom d fd m r.room;
    made = λ j p h. elim (ℕ_discrete fd j) [
      | yes e ↦
          let new : m.fresh ≡ p =
            some_inner m.fresh p
              (sym (slot-created d fd m r.room) ∙ ap (slot (created d fd m)) e ∙ h) in
          omega (arith, new)
      | no ne ↦
          let old = r.made j p (sym (slot-created_other d fd j m r.room ne) ∙ h) in
          omega (arith, old)
    ];
    apart = λ i j p h k. elim (ℕ_discrete fd i) [
      | yes e ↦ elim (ℕ_discrete fd j) [
        | yes e' ↦ sym e ∙ e'
        | no ne' ↦
            let new : m.fresh ≡ p =
              some_inner m.fresh p
                (sym (slot-created d fd m r.room) ∙ ap (slot (created d fd m)) e ∙ h) in
            let old = r.made j p (sym (slot-created_other d fd j m r.room ne') ∙ k) in
            absurd (omega (arith, new, old))
      ]
      | no ne ↦ elim (ℕ_discrete fd j) [
        | yes e' ↦
            let new : m.fresh ≡ p =
              some_inner m.fresh p
                (sym (slot-created d fd m r.room) ∙ ap (slot (created d fd m)) e' ∙ k) in
            let old = r.made i p (sym (slot-created_other d fd i m r.room ne) ∙ h) in
            absurd (omega (arith, new, old))
        | no ne' ↦
            r.apart i j p (sym (slot-created_other d fd i m r.room ne) ∙ h)
              (sym (slot-created_other d fd j m r.room ne') ∙ k)
      ]
    ];
    same = λ j. elim (ℕ_discrete fd j) [
      | yes e ↦
          subst
            (λ x.
              see (created d fd m) (slot (created d fd m) x)
              ≡ update_map fd (some (new_fd_ctx d fd)) a x)
            e
            (ap (see (created d fd m)) (slot-created d fd m r.room)
              ∙ rw (==_self m.fresh) refl
              ∙ sym (update_map_self fd _ a))
      | no ne ↦
          ap (see (created d fd m)) (slot-created_other d fd j m r.room ne)
          ∙ see_same m (created d fd m) (slot m j) (λ q k.
            let old = r.made j q k in
            let test : (m.fresh == q) ≡ false = ground (arith, old) in rw test refl)
          ∙ r.same j
          ∙ sym (update_map_other fd j (some (new_fd_ctx d fd)) a ne)
    ];
  }

  -- A change of the context at one address.
  abbrev pub changed : ℕ → FdCtx → FdManager
  changed p c = record m { ctx_at = λ q. if p == q then c else m.ctx_at q }

  changed-same :
      (p : ℕ) (c : FdCtx) (other : ℕ)
      → slot m fd ≡ some p
      → fd ≢ other
      → see (changed p c) (slot m other) ≡ a other
  changed-same p c other h ne =
      see_same m (changed p c) (slot m other) (λ q k.
        let differ : p ≢ q = λ e. ne (r.apart fd other p h (k ∙ ap some (sym e))) in
        let test : (p == q) ≡ false = ground (arith, differ) in rw test refl)
      ∙ r.same other

  pub changed-Represents :
      (p : ℕ) (c : FdCtx) → slot m fd ≡ some p → Represents (changed p c) (update_map fd (some c) a)
  changed-Represents p c h = record {
    room = r.room;
    made = r.made;
    apart = r.apart;
    same = λ j. elim (ℕ_discrete fd j) [
      | yes e ↦
          subst (λ x. see (changed p c) (slot m x) ≡ update_map fd (some c) a x) e
            (ap (see (changed p c)) h ∙ rw (==_self p) refl ∙ sym (update_map_self fd _ a))
      | no ne ↦ changed-same p c j h ne ∙ sym (update_map_other fd j (some c) a ne)
    ];
  }

  -- `del` closes the context, and forgets it.
  slot-del : slot (del (pos fd) m) fd ≡ none
  unfolding del
  slot-del = elim (Option-cases (get_elem? m.datas fd)) [
    | inl e ↦ rw (del, e) (ap slot_of e)
    | inr (none, e) ↦ rw (del, e) (ap slot_of e)
    | inr (some p, e) ↦ rw (del, e) (get_elem?-set-none m.datas fd)
  ]

  slot-del_other : (other : ℕ) → fd ≢ other → slot (del (pos fd) m) other ≡ slot m other
  unfolding del
  slot-del_other other ne = elim (Option-cases (get_elem? m.datas fd)) [
    | inl e ↦ rw (del, e) refl
    | inr (none, e) ↦ rw (del, e) refl
    | inr (some p, e) ↦ rw (del, e) (ap slot_of (get_elem?-set_ne m.datas fd other none ne))
  ]

  del_frame :
      HasRoom (del (pos fd) m)
      × ((del (pos fd) m).fresh ≡ m.fresh)
      × ((other : ℕ) → fd ≢ other → see (del (pos fd) m) (slot m other) ≡ see m (slot m other))
  unfolding del
  del_frame = elim (Option-cases (get_elem? m.datas fd)) [
    | inl e ↦ rw (del, e) (r.room, refl, λ other ne. refl)
    | inr (none, e) ↦ rw (del, e) (r.room, refl, λ other ne. refl)
    | inr (some p, e) ↦
        rw (del, e)
          (
            rw (length-set m.datas fd none) r.room,
            refl,
            λ other ne.
                see_same m
                  (record m {
                    ctx_at = λ q.
                        if p == q then record (m.ctx_at p) { is_closed = true } else m.ctx_at q;
                    datas = set m.datas fd none;
                  })
                  (slot m other)
                  (λ q k.
                    let differ : p ≢ q =
                      λ e'. ne (r.apart fd other p (ap slot_of e) (k ∙ ap some (sym e'))) in
                    let test : (p == q) ≡ false = ground (arith, differ) in rw test refl),
          )
  ]

  pub deleted-Represents : Represents (del (pos fd) m) (update_map fd none a)
  deleted-Represents =
      let (room, fresh, frame) = del_frame in
      record {
        room = room;
        made = λ j p h. elim (ℕ_discrete fd j) [
          | yes e ↦ let x : none ≡ some p = sym slot-del ∙ ap (slot (del (pos fd) m)) e ∙ h in cc
          | no ne ↦
              let old = r.made j p (sym (slot-del_other j ne) ∙ h) in omega (arith, fresh, old)
        ];
        apart = λ i j p h k. elim (ℕ_discrete fd i) [
          | yes e ↦ let x : none ≡ some p = sym slot-del ∙ ap (slot (del (pos fd) m)) e ∙ h in cc
          | no ne ↦ elim (ℕ_discrete fd j) [
            | yes e ↦ let x : none ≡ some p = sym slot-del ∙ ap (slot (del (pos fd) m)) e ∙ k in cc
            | no ne' ↦
                r.apart i j p (sym (slot-del_other i ne) ∙ h) (sym (slot-del_other j ne') ∙ k)
          ]
        ];
        same = λ j. elim (ℕ_discrete fd j) [
          | yes e ↦
              subst (λ x. see (del (pos fd) m) (slot (del (pos fd) m) x) ≡ update_map fd none a x) e
                (ap (see (del (pos fd) m)) slot-del ∙ sym (update_map_self fd none a))
          | no ne ↦
              ap (see (del (pos fd) m)) (slot-del_other j ne)
              ∙ frame j ne
              ∙ r.same j
              ∙ sym (update_map_other fd j none a ne)
        ];
      }

-- The manager that the constructor makes has no contexts.
new_slots : (memory : ℕ → FdCtx) (fd : ℕ) → slot (new_fd_manager memory) fd ≡ none
unfolding new_fd_manager
new_slots memory fd = slot-resize 64 fd [] (omega arith)

pub new_fd_manager-Represents :
    (memory : ℕ → FdCtx) → Represents (new_fd_manager memory) (λ fd. none)
unfolding new_fd_manager resize
new_fd_manager-Represents memory = record {
  room = omega arith;
  made = λ fd p h. let x : none ≡ some p = sym (new_slots memory fd) ∙ h in cc;
  apart = λ i j p h k. let x : none ≡ some p = sym (new_slots memory i) ∙ h in cc;
  same = λ fd. ap (see (new_fd_manager memory)) (new_slots memory fd);
}
