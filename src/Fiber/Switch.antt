-- ===== src/Fiber/Switch.antt =====
-- src/fiber.cpp: what `resume`, `call` and `yield` do to the chain.
use coroutine_lib.Prelude.{
  ℕ, true, false, ◌&&◌, none, some, List, [], ◌∷◌, ◌==◌, ◌≡◌, ◌≢◌, ◌⊎◌, inl, inr, refl, sym, ap,
  subst, ◌∙◌, arith, Bool-cases, ==_self,
}
use coroutine_lib.Fiber.{State, ready, running, term}
use coroutine_lib.Fiber.Transfer.{
  Fiber, Thread, put, swap, home, is_ready, is_term, resume, call_ok, call, parent_of, back_to,
  paused, apart, leave, yield,
}
use coroutine_lib.Fiber.Chain.{Goes, IsChain, pushed, popped}

ready_stopped : (s : State) → is_ready s ≡ true → s ≢ running
ready_stopped ready h e = cc
ready_stopped running h e = cc
ready_stopped term h e = cc

plain_of :
    (t : Thread) (chain : List ℕ) (f : ℕ)
    → IsChain t chain
    → (t.fibers f).state ≢ running
    → (t.fibers f).return_to_parent ≡ false
plain_of t chain f v stopped = elim (Bool-cases (t.fibers f).return_to_parent) [
  | inl e ↦ absurd (stopped (v.flags f e))
  | inr e ↦ e
]

-- The switch to a fiber that did not run.
abbrev enter : ℕ → Fiber → ℕ → Thread → Thread
enter f w from t = swap from f (record t { fibers = put t.fibers f w; current = f })

entered :
    (t : Thread) (chain : List ℕ) (f from : ℕ) (w : Fiber)
    → IsChain t chain
    → (t.fibers f).state ≢ running
    → t.alive f ≡ true
    → w.state ≡ running
    → Goes t w t.current
    → t.current ≡ from
    → IsChain (enter f w from t) (f ∷ chain)
unfolding swap
entered t chain f from w v stopped living now goes at =
    let new : w ≡ put t.fibers f w f = ground arith in
    pushed t (enter f w from t) chain f v (refl, refl, refl) stopped living (λ g n. ground arith)
      (ap (λ z. z.state) (sym new) ∙ now) (subst (λ z. Goes t z t.current) new goes) refl
      (ground (arith, v.code, v.saved f)) (λ g. ground (arith, v.code, v.saved g))

other_fiber : (fs : ℕ → Fiber) (x : ℕ) (w : Fiber) (g : ℕ) → x ≢ g → put fs x w g ≡ fs g
other_fiber fs x w g n = ground arith

left_behind :
    (t : Thread) (fs : ℕ → Fiber) (x y : ℕ) (r : List ℕ) (w : Fiber)
    → IsChain t (x ∷ y ∷ r)
    → ((g : ℕ) → x ≢ g → fs g ≡ t.fibers g)
    → w.state ≢ running
    → w.return_to_parent ≡ false
    → t.current ≡ x
    → IsChain (leave x w y (record t { fibers = fs })) (y ∷ r)
unfolding swap
left_behind t fs x y r w v same stopped plain at =
    let new : put fs x w x ≡ w = ground arith in
    popped t (leave x w y (record t { fibers = fs })) x y r v (refl, refl, refl)
      (λ g n. other_fiber fs x w g n ∙ same g n) (λ e. stopped (sym (ap (λ z. z.state) new) ∙ e))
      (ap (λ z. z.return_to_parent) new ∙ plain) refl (ground (arith, v.code, v.saved y))
      (λ g. ground (arith, v.code, v.saved g))

some_injective : (a b : Thread) → some a ≡ some b → a ≡ b
some_injective a b e = ap (λ o. elim o [ none ↦ a | some z ↦ z ]) e

pub resumed :
    (a b : Thread) (chain : List ℕ) (f : ℕ)
    → IsChain a chain
    → a.alive f ≡ true
    → a.current ≡ home a (a.fibers f)
    → resume f a ≡ some b
    → IsChain b (f ∷ chain)
unfolding resume
resumed a b chain f v living at e = elim (Bool-cases (is_ready (a.fibers f).state)) [
  | inr n ↦ absurd (ground (arith, n))
  | inl n ↦
      let w : Fiber = record (a.fibers f) { state = running } in
      let stopped = ready_stopped (a.fibers f).state n in
      let same : resume f a ≡ some (enter f w (home a (a.fibers f)) a) = rw (resume, n) refl in
      subst (λ z. IsChain z (f ∷ chain)) (some_injective _ b (sym same ∙ e))
        (entered a chain f (home a (a.fibers f)) w v stopped living refl
          (inr (plain_of a chain f v stopped, sym at)) at)
]

-- `call` switches to a ready fiber, or returns an error.
call_cases :
    (f : ℕ) (t : Thread)
    → ((is_ready (t.fibers f).state ≡ true)
        × (call f t ≡ (
          enter f
              (record (t.fibers f) {
                state = running;
                parent = some t.current;
                return_to_parent = true;
              })
              t.current
              t,
          call_ok,
        )))
      ⊎ ((call f t).1 ≢ call_ok)
unfolding call
call_cases f t = elim (Bool-cases (is_ready (t.fibers f).state)) [
  | inr n ↦ inr (rw (call, n) (λ e. cc))
  | inl n ↦ elim (Bool-cases (t.current == f)) [
    | inl s ↦ inr (rw (call, n, s) (λ e. cc))
    | inr s ↦
        elim (Bool-cases ((t.fibers f).use_shared_stack && (t.fibers t.current).use_shared_stack)) [
          | inl k ↦ inr (rw (call, n, s, k) (λ e. cc))
          | inr k ↦ inl (n, rw (call, n, s, k) refl)
        ]
  ]
]

pub called :
    (a b : Thread) (chain : List ℕ) (f : ℕ)
    → IsChain a chain
    → a.alive f ≡ true
    → call f a ≡ (b, call_ok)
    → IsChain b (f ∷ chain)
called a b chain f v living e = elim (call_cases f a) [
  | inr n ↦ absurd (n (ap (λ z. z.1) e))
  | inl (n, same) ↦
      subst (λ z. IsChain z (f ∷ chain)) (ap (λ z. z.0) (sym same ∙ e))
        (entered a chain f a.current _ v (ready_stopped (a.fibers f).state n) living refl
          (inl (refl, refl)) refl)
]

paused_stopped : (v : Fiber) → (paused v).state ≢ running
unfolding paused
paused_stopped v e = elim (Bool-cases (is_term v.state)) [
  | inl k ↦ ground (arith, k, e)
  | inr k ↦ ground (arith, k, e)
]

paused_plain : (v : Fiber) → (paused v).return_to_parent ≡ v.return_to_parent
unfolding paused
paused_plain v = elim (Bool-cases (is_term v.state)) [ inl k ↦ rw k refl | inr k ↦ rw k refl ]

apart-paused :
    (v : Fiber)
    → ((apart (paused v)).state ≢ running) × ((apart (paused v)).return_to_parent ≡ false)
unfolding apart
apart-paused v = (paused_stopped v, refl)

back_to_parent :
    (t : Thread) (v : Fiber) (y : ℕ)
    → v.return_to_parent ≡ true
    → v.parent ≡ some y
    → t.alive y ≡ true
    → back_to t v ≡ some y
unfolding back_to parent_of
back_to_parent t v y flag p living = ground arith

back_to_nobody : (t : Thread) (v : Fiber) → v.return_to_parent ≡ false → back_to t v ≡ none
unfolding back_to
back_to_nobody t v flag = ground arith

-- `yield` of a fiber that runs or has ended, while the one it goes to is alive.
yields_to :
    (t : Thread) (y : ℕ)
    → is_ready (t.fibers t.current).state ≡ false
    → Goes t (t.fibers t.current) y
    → t.alive y ≡ true
    → (w : Fiber) × (yield t ≡ some (leave t.current w y t))
      × (w.state ≢ running)
      × (w.return_to_parent ≡ false)
unfolding yield
yields_to t y n (inl (flag, p)) living =
    let v = t.fibers t.current in
    (
      apart (paused v),
      rw (yield, n, back_to_parent t v y flag p living) refl,
      (apart-paused v).0,
      (apart-paused v).1,
    )
yields_to t y n (inr (flag, h)) living =
    let v = t.fibers t.current in
    (
      paused v,
      subst (λ z. yield t ≡ some (leave t.current (paused v) z t)) h
          (rw (yield, n, back_to_nobody t v flag) refl),
      paused_stopped v,
      paused_plain v ∙ flag,
    )

-- A chain of which somebody waits.
pub data Waited (t : Thread) (chain : List ℕ) : Type 0 where
  waited : (y : ℕ) (r : List ℕ) → chain ≡ t.current ∷ y ∷ r → Waited t chain

pub someone_waits :
    (t : Thread) (chain : List ℕ) → IsChain t chain → t.current ≢ t.thread_fiber → Waited t chain
someone_waits t [] v n = absurd v.linked
someone_waits t (x ∷ []) v n = absurd (n (ground (arith, v.top, v.linked)))
someone_waits t (x ∷ y ∷ r) v n = waited y r (ground (arith, v.top))

pub stopped_by :
    (a b : Thread) (fs : ℕ → Fiber) (y : ℕ) (r : List ℕ)
    → IsChain a (a.current ∷ y ∷ r)
    → ((g : ℕ) → a.current ≢ g → fs g ≡ a.fibers g)
    → is_ready (fs a.current).state ≡ false
    → Goes a (fs a.current) y
    → yield (record a { fibers = fs }) ≡ some b
    → IsChain b (y ∷ r)
stopped_by a b fs y r v same n goes e =
    let living = v.lives y (v.runs y (ground (arith, ==_self y))) in
    let (w, ends, stopped, plain) = yields_to (record a { fibers = fs }) y n goes living in
    subst (λ z. IsChain z (y ∷ r)) (some_injective _ b (sym ends ∙ e))
      (left_behind a fs a.current y r w v same stopped plain refl)
