-- ===== src/Timer/Order.antt =====
-- src/timer.cpp: the set of a manager is ordered by the comparator and holds a timer once.
use coroutine_lib.Prelude.{
  ℕ, ◌≤◌, ◌≡◌, ◌≢◌, refl, sym, subst, ◌∙◌, true, false, List, [], ◌∷◌, arith, All, All-mono, ◌==◌,
  Bool-cases, inl, inr, All-zip,
}
use coroutine_lib.Timer.{Timer, update, comes_before, same_key, set_find, set_erase, set_insert}

module _ (at : ℕ → Timer) where
  before_irrefl : (p : ℕ) → comes_before at p p ≡ false
  unfolding comes_before
  before_irrefl p = ground arith

  pub before_trans :
      (p q r : ℕ)
      → comes_before at p q ≡ true
      → comes_before at q r ≡ true
      → comes_before at p r ≡ true
  unfolding comes_before
  before_trans p q r h k = ground arith

  pub before_connex : (p q : ℕ) → p ≢ q → comes_before at p q ≡ false → comes_before at q p ≡ true
  unfolding comes_before
  before_connex p q d h = ground arith

  pub before_same : (p q : ℕ) → comes_before at p q ≡ false → comes_before at q p ≡ false → p ≡ q
  unfolding comes_before
  before_same p q h k = ground arith

  pub before-ne : (p q : ℕ) → comes_before at p q ≡ true → p ≢ q
  before-ne p q h e = cc (before_irrefl p)

  pub before-le : (p q : ℕ) → comes_before at p q ≡ true → (at p).next ≤ (at q).next
  unfolding comes_before
  before-le p q h = ground arith

  -- The keys of the set are the addresses.
  pub same_key_iff : (p q : ℕ) → same_key at p q ≡ (p == q)
  unfolding same_key
  same_key_iff p q =
      ground
        (arith, before_irrefl p, before_connex p q, before_connex q p, before-ne p q, before-ne q p)

  abbrev pub IsOrdered : List ℕ → Type 0
  IsOrdered [] = Unit {0}
  IsOrdered (p ∷ ps) = All (λ q. comes_before at p q ≡ true) ps × IsOrdered ps

  pub insert-All :
      (P : ℕ → Type 0) (p : ℕ) (ps : List ℕ) → P p → All P ps → All P (set_insert at p ps)
  unfolding set_insert
  insert-All P p [] h k = (h, tt)
  insert-All P p (q ∷ qs) h k = ground (arith, insert-All P p qs h k.1)

  pub insert-IsOrdered : (p : ℕ) (ps : List ℕ) → IsOrdered ps → IsOrdered (set_insert at p ps)
  unfolding set_insert
  insert-IsOrdered p [] h = (tt, tt)
  insert-IsOrdered p (q ∷ qs) h = elim (Bool-cases (comes_before at p q)) [
    | inl e ↦ rw e ((e, All-mono _ _ qs (λ r k. before_trans p q r e k) h.0), h)
    | inr e ↦ elim (Bool-cases (comes_before at q p)) [
      | inl f ↦
          rw (e, f)
            (insert-All (λ r. comes_before at q r ≡ true) p qs f h.0, insert-IsOrdered p qs h.1)
      | inr f ↦ rw (e, f) h
    ]
  ]

  erase-All : (P : ℕ → Type 0) (p : ℕ) (ps : List ℕ) → All P ps → All P (set_erase at p ps)
  unfolding set_erase
  erase-All P p [] k = tt
  erase-All P p (q ∷ qs) k = ground (arith, erase-All P p qs k.1)

  pub erase-IsOrdered : (p : ℕ) (ps : List ℕ) → IsOrdered ps → IsOrdered (set_erase at p ps)
  unfolding set_erase
  erase-IsOrdered p [] h = tt
  erase-IsOrdered p (q ∷ qs) h = elim (Bool-cases (same_key at p q)) [
    | inl e ↦ rw e h.1
    | inr e ↦ rw e (erase-All _ p qs h.0, erase-IsOrdered p qs h.1)
  ]

  -- Erasing leaves no second copy: the keys of an ordered set are distinct.
  pub erase_absent : (p : ℕ) (ps : List ℕ) → IsOrdered ps → All (λ q. p ≢ q) (set_erase at p ps)
  unfolding set_erase
  erase_absent p [] h = tt
  erase_absent p (q ∷ qs) h = elim (Bool-cases (same_key at p q)) [
    | inl e ↦
        let same : p ≡ q = ground (arith, same_key_iff p q) in
        rw e (All-mono _ _ qs (λ r k. subst (λ x. x ≢ r) (sym same) (before-ne q r k)) h.0)
    | inr e ↦ rw e (ground (arith, same_key_iff p q), erase_absent p qs h.1)
  ]

  pub find_absent : (p : ℕ) (ps : List ℕ) → All (λ q. p ≢ q) ps → set_find at p ps ≡ false
  unfolding set_find
  find_absent p [] h = refl
  find_absent p (q ∷ qs) h = ground (arith, same_key_iff p q, find_absent p qs h.1)

  pub absent_of_find : (p : ℕ) (ps : List ℕ) → set_find at p ps ≡ false → All (λ q. p ≢ q) ps
  unfolding set_find
  absent_of_find p [] h = tt
  absent_of_find p (q ∷ qs) h =
      (ground (arith, same_key_iff p q), absent_of_find p qs (ground (arith, same_key_iff p q)))

  pub find-insert : (p : ℕ) (ps : List ℕ) → set_find at p (set_insert at p ps) ≡ true
  unfolding set_find set_insert
  find-insert p [] = ground (arith, same_key_iff p p)
  find-insert p (q ∷ qs) = ground (
    arith,
    same_key_iff p p,
    same_key_iff p q,
    find-insert p qs,
    before_connex p q,
    before_connex q p,
  )

module _ (at : ℕ → Timer) (p : ℕ) (t : Timer) where
  before_update : (q r : ℕ) → p ≢ q → p ≢ r → comes_before (update at p t) q r ≡ comes_before at q r
  unfolding comes_before
  before_update q r h k = ground arith

  -- A change of a timer outside the set leaves the set in order.
  pub update-IsOrdered :
      (ps : List ℕ) → All (λ q. p ≢ q) ps → IsOrdered at ps → IsOrdered (update at p t) ps
  update-IsOrdered [] d h = tt
  update-IsOrdered (q ∷ qs) d h = (
    All-zip (λ r. p ≢ r) (λ r. comes_before at q r ≡ true) _ qs
        (λ r e k. before_update q r d.0 e ∙ k) d.1 h.0,
    update-IsOrdered qs d.1 h.1,
  )
