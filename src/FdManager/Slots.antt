-- ===== src/FdManager/Slots.antt =====
-- src/fd_manager.cpp: the vector of `FdManager`, as a map from descriptors to addresses.
use coroutine_lib.Prelude.{
  ℕ, zero, suc, ◌*◌, ◌/◌, ◌≤◌, ◌≡◌, ◌≢◌, refl, ap, ◌∙◌, Bool, true, false, Option, none, some, List,
  [], ◌∷◌, ◌==◌, leb, length, get_elem?, set, arith, get_elem?-set_ne, Option-cases, Bool-cases,
  inl, inr, ==_self,
}
use coroutine_lib.Prelude.Int.{pos}
use coroutine_lib.FdManager.{FdCtx, FdManager, Descriptor, resize, get_read, get}
use coroutine_lib.FdManager.Laws.{HasRoom, room_for, created, get_create_creates, created_holds}
use coroutine_lib.FdManager.Spec.{FdMap, update_map, see}

abbrev pub slot_of : Option (Option ℕ) → Option ℕ
slot_of none = none
slot_of (some s) = s

-- The address that the vector has for a descriptor.
abbrev pub slot : FdManager → ℕ → Option ℕ
slot m fd = slot_of (get_elem? m.datas fd)

pub get_slot :
    (d : Descriptor) (fd : ℕ) (m : FdManager) → get d (pos fd) false m ≡ some (m, slot m fd)
unfolding get get_read
get_slot d fd m = elim (Option-cases (get_elem? m.datas fd)) [
  | inl e ↦ rw (get, get_read, e) refl
  | inr (none, e) ↦ rw (get, get_read, e) refl
  | inr (some p, e) ↦ rw (get, get_read, e) refl
]

pub get_slot_some :
    (d : Descriptor) (fd p : ℕ) (auto_create : Bool) (m : FdManager)
    → slot m fd ≡ some p
    → get d (pos fd) auto_create m ≡ some (m, some p)
unfolding get get_read
get_slot_some d fd p auto_create m h = elim (Option-cases (get_elem? m.datas fd)) [
  | inl e ↦ let x : none ≡ some p = rw e at h in cc
  | inr (none, e) ↦ let x : none ≡ some p = rw e at h in cc
  | inr (some q, e) ↦ rw (get, get_read, e) (ap (λ o. some (m, o)) (rw e at h))
]

pub get_slot_none :
    (d : Descriptor) (fd : ℕ) (m : FdManager)
    → HasRoom m
    → slot m fd ≡ none
    → get d (pos fd) true m ≡ some (created d fd m, some m.fresh)
unfolding get get_read
get_slot_none d fd m room h = elim (Option-cases (get_elem? m.datas fd)) [
  | inl e ↦ rw (get, get_read, e, get_create_creates d fd m room) refl
  | inr (none, e) ↦ rw (get, get_read, e, get_create_creates d fd m room) refl
  | inr (some q, e) ↦ let x : some q ≡ none = rw e at h in cc
]

pub get_elem?-set-none :
    (xs : List (Option ℕ)) (n : ℕ) → slot_of (get_elem? (set xs n none) n) ≡ none
get_elem?-set-none [] n = refl
get_elem?-set-none (x ∷ xs) zero = refl
get_elem?-set-none (x ∷ xs) (suc n) = get_elem?-set-none xs n

-- A larger vector has the same addresses.
pub slot-resize :
    (n j : ℕ) (xs : List (Option ℕ))
    → length xs ≤ n
    → slot_of (get_elem? (resize n xs) j) ≡ slot_of (get_elem? xs j)
unfolding resize
slot-resize zero j [] h = refl
slot-resize zero j (x ∷ xs) h = absurd (omega (arith, h))
slot-resize (suc n) zero [] h = refl
slot-resize (suc n) (suc j) [] h = slot-resize n j [] (omega arith)
slot-resize (suc n) zero (x ∷ xs) h = refl
slot-resize (suc n) (suc j) (x ∷ xs) h = slot-resize n j xs (omega (arith, h))

slot-room_for :
    (fd j : ℕ) (m : FdManager) → HasRoom m → slot_of (get_elem? (room_for fd m) j) ≡ slot m j
slot-room_for fd j m room = elim (Bool-cases (leb (length m.datas) fd)) [
  | inl e ↦ rw e (slot-resize (fd * 3 / 2) j m.datas (ground (arith, e, room)))
  | inr e ↦ rw e refl
]

pub slot-created :
    (d : Descriptor) (fd : ℕ) (m : FdManager) → HasRoom m → slot (created d fd m) fd ≡ some m.fresh
slot-created d fd m room = ap slot_of (created_holds d fd m room)

pub slot-created_other :
    (d : Descriptor) (fd other : ℕ) (m : FdManager)
    → HasRoom m
    → fd ≢ other
    → slot (created d fd m) other ≡ slot m other
slot-created_other d fd other m room ne =
    ap slot_of (get_elem?-set_ne (room_for fd m) fd other (some m.fresh) ne)
    ∙ slot-room_for fd other m room

pub some_inner : (p q : ℕ) → some p ≡ some q → p ≡ q
some_inner p q h = ap (λ o. elim o [ none ↦ p | some x ↦ x ]) h

pub see_same :
    (m m' : FdManager) (s : Option ℕ)
    → ((p : ℕ) → s ≡ some p → m'.ctx_at p ≡ m.ctx_at p)
    → see m' s ≡ see m s
see_same m m' none h = refl
see_same m m' (some p) h = ap some (h p refl)

pub update_map_self : (fd : ℕ) (v : Option FdCtx) (a : FdMap) → update_map fd v a fd ≡ v
update_map_self fd v a = rw (==_self fd) refl

pub update_map_other :
    (fd other : ℕ) (v : Option FdCtx) (a : FdMap) → fd ≢ other → update_map fd v a other ≡ a other
update_map_other fd other v a ne = let e : (fd == other) ≡ false = ground (arith, ne) in rw e refl
