-- ===== src/Fiber/Chain.antt =====
-- src/fiber.cpp: the chain of fibers that wait for the running one.
use coroutine_lib.Prelude.{
  ℕ, Bool, true, false, some, List, [], ◌∷◌, ◌==◌, if◌then◌else◌, any, ◌≡◌, ◌≢◌, ◌⊎◌, inl, inr,
  refl, sym, ap, subst, ◌∙◌, arith, Bool-cases,
}
use native.Mathlib.Decide.{ℕ_discrete}
use coroutine_lib.Fiber.{running}
use coroutine_lib.Fiber.Transfer.{Fiber, Thread, home}

abbrev pub on_chain : ℕ → List ℕ → Bool
on_chain f = any (λ w. w == f)

-- A fiber that stops hands control to this one.
abbrev pub Goes : Thread → Fiber → ℕ → Type 0
Goes t v y =
    ((v.return_to_parent ≡ true) × (v.parent ≡ some y))
    ⊎ ((v.return_to_parent ≡ false) × (home t v ≡ y))

-- From the running fiber to the thread's own.
abbrev pub Linked : Thread → List ℕ → Type 0
Linked t [] = ⊥
Linked t (x ∷ []) = x ≡ t.thread_fiber
Linked t (x ∷ y ∷ r) = Goes t (t.fibers x) y × Linked t (y ∷ r)

abbrev pub Unique : List ℕ → Type 0
Unique [] = Unit {0}
Unique (x ∷ xs) = (on_chain x xs ≡ false) × Unique xs

pub record IsChain (t : Thread) (chain : List ℕ) : Type 0 where
  pub linked : Linked t chain
  pub rest : List ℕ
  pub top : chain ≡ t.current ∷ rest
  pub code : t.code ≡ t.current
  pub saved : (f : ℕ) → t.saved f ≡ f
  pub runs : (f : ℕ) → on_chain f chain ≡ true → (t.fibers f).state ≡ running
  pub all : (f : ℕ) → (t.fibers f).state ≡ running → on_chain f chain ≡ true
  pub unique : Unique chain
  pub flags : (f : ℕ) → (t.fibers f).return_to_parent ≡ true → (t.fibers f).state ≡ running
  pub lives : (f : ℕ) → (t.fibers f).state ≡ running → t.alive f ≡ true

-- What a switch leaves alone.
abbrev pub Frame : Thread → Thread → Type 0
Frame t t' =
    (t'.thread_fiber ≡ t.thread_fiber)
    × (t'.scheduler_fiber ≡ t.scheduler_fiber)
    × (t'.alive ≡ t.alive)

pub Linked-same :
    (t t' : Thread) (chain : List ℕ)
    → t'.thread_fiber ≡ t.thread_fiber
    → t'.scheduler_fiber ≡ t.scheduler_fiber
    → ((g : ℕ) → on_chain g chain ≡ true → t'.fibers g ≡ t.fibers g)
    → Linked t chain
    → Linked t' chain
Linked-same t t' [] own sched same l = l
Linked-same t t' (x ∷ []) own sched same l = l ∙ sym own
Linked-same t t' (x ∷ y ∷ r) own sched same (g, l) = (
  goes (same x (ground arith)) g,
  Linked-same t t' (y ∷ r) own sched (λ w h. same w (ground arith)) l,
)
  where
    goes : t'.fibers x ≡ t.fibers x → Goes t (t.fibers x) y → Goes t' (t'.fibers x) y
    goes e (inl (f, p)) = inl (ap (λ v. v.return_to_parent) e ∙ f, ap (λ v. v.parent) e ∙ p)
    goes e (inr (f, h)) = inr (ap (λ v. v.return_to_parent) e ∙ f, rw (e, own, sched) h)

pub away :
    (t : Thread) (chain : List ℕ) (f : ℕ)
    → IsChain t chain
    → (t.fibers f).state ≢ running
    → on_chain f chain ≡ false
away t chain f v stopped = elim (Bool-cases (on_chain f chain)) [
  | inl e ↦ absurd (stopped (v.runs f e))
  | inr e ↦ e
]

-- A fiber that does not run joins the chain.
pub pushed :
    (t t' : Thread) (chain : List ℕ) (f : ℕ)
    → IsChain t chain
    → Frame t t'
    → (t.fibers f).state ≢ running
    → t.alive f ≡ true
    → ((g : ℕ) → f ≢ g → t'.fibers g ≡ t.fibers g)
    → (t'.fibers f).state ≡ running
    → Goes t' (t'.fibers f) t.current
    → t'.current ≡ f
    → t'.code ≡ f
    → ((g : ℕ) → t'.saved g ≡ g)
    → IsChain t' (f ∷ chain)
pushed t t' chain f v fr stopped living same now goes top code saved = record {
  linked =
      subst (λ c. Linked t' (f ∷ c)) (sym v.top)
        (
          goes,
          subst (Linked t') v.top (
              Linked-same t t' chain fr.0 fr.1
                (λ w h. same w (λ e. stopped (v.runs f (ap (λ z. on_chain z chain) e ∙ h))))
                v.linked),
        );
  rest = chain;
  top = ap (λ x. x ∷ chain) (sym top);
  code = code ∙ sym top;
  saved = saved;
  runs = λ g h. elim (ℕ_discrete f g) [
    | yes e ↦ subst (λ x. (t'.fibers x).state ≡ running) e now
    | no e ↦ ap (λ w. w.state) (same g e) ∙ v.runs g (ground arith)
  ];
  all = λ g h. elim (ℕ_discrete f g) [
    | yes e ↦ ground arith
    | no e ↦ ground (arith, v.all g (sym (ap (λ w. w.state) (same g e)) ∙ h))
  ];
  unique = (away t chain f v stopped, v.unique);
  flags = λ g h. elim (ℕ_discrete f g) [
    | yes e ↦ subst (λ x. (t'.fibers x).state ≡ running) e now
    | no e ↦
        ap (λ w. w.state) (same g e) ∙ v.flags g (sym (ap (λ w. w.return_to_parent) (same g e)) ∙ h)
  ];
  lives = λ g h. elim (ℕ_discrete f g) [
    | yes e ↦ ap (λ a. a g) fr.2 ∙ ap t.alive (sym e) ∙ living
    | no e ↦ ap (λ a. a g) fr.2 ∙ v.lives g (sym (ap (λ w. w.state) (same g e)) ∙ h)
  ];
}

-- The running fiber leaves the chain to the one that waits for it.
pub popped :
    (t t' : Thread) (x y : ℕ) (r : List ℕ)
    → IsChain t (x ∷ y ∷ r)
    → Frame t t'
    → ((g : ℕ) → x ≢ g → t'.fibers g ≡ t.fibers g)
    → (t'.fibers x).state ≢ running
    → (t'.fibers x).return_to_parent ≡ false
    → t'.current ≡ y
    → t'.code ≡ y
    → ((g : ℕ) → t'.saved g ≡ g)
    → IsChain t' (y ∷ r)
popped t t' x y r v fr same stopped plain top code saved = record {
  linked = Linked-same t t' (y ∷ r) fr.0 fr.1 (λ w h. same w (others w h)) v.linked.1;
  rest = r;
  top = ap (λ z. z ∷ r) (sym top);
  code = code ∙ sym top;
  saved = saved;
  runs = λ g h. ap (λ w. w.state) (same g (others g h)) ∙ v.runs g (ground arith);
  all = λ g h. elim (ℕ_discrete x g) [
    | yes e ↦ absurd (stopped (subst (λ z. (t'.fibers z).state ≡ running) (sym e) h))
    | no e ↦ ground (arith, v.all g (sym (ap (λ w. w.state) (same g e)) ∙ h))
  ];
  unique = v.unique.1;
  flags = λ g h. elim (ℕ_discrete x g) [
    | yes e ↦ absurd (ground (arith, plain, ap t'.fibers e))
    | no e ↦
        ap (λ w. w.state) (same g e) ∙ v.flags g (sym (ap (λ w. w.return_to_parent) (same g e)) ∙ h)
  ];
  lives = λ g h. elim (ℕ_discrete x g) [
    | yes e ↦ absurd (stopped (subst (λ z. (t'.fibers z).state ≡ running) (sym e) h))
    | no e ↦ ap (λ a. a g) fr.2 ∙ v.lives g (sym (ap (λ w. w.state) (same g e)) ∙ h)
  ];
}
  where
    others : (w : ℕ) → on_chain w (y ∷ r) ≡ true → x ≢ w
    others w h e = ground (arith, v.unique.0, ap (λ z. on_chain z (y ∷ r)) e)

pub destroyed-IsChain :
    (a : Thread) (chain : List ℕ) (f : ℕ)
    → IsChain a chain
    → (a.fibers f).state ≢ running
    → IsChain (record a { alive = λ g. if f == g then false else a.alive g }) chain
destroyed-IsChain a chain f v stopped = record {
  linked =
      Linked-same a (record a { alive = λ g. if f == g then false else a.alive g }) chain refl refl
        (λ g h. refl) v.linked;
  rest = v.rest;
  top = v.top;
  code = v.code;
  saved = v.saved;
  runs = v.runs;
  all = v.all;
  unique = v.unique;
  flags = v.flags;
  lives = λ g h. elim (ℕ_discrete f g) [
    | yes e ↦ absurd (stopped (ap (λ z. (a.fibers z).state) e ∙ h))
    | no e ↦ ground (arith, v.lives g h)
  ];
}
