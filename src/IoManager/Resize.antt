-- ===== src/IoManager/Resize.antt =====
-- src/iomanager.cpp: `contextResize` and the states that it leaves.
use coroutine_lib.Prelude.{
  ℕ, zero, suc, ◌+◌, ◌-◌, ◌*◌, ◌/◌, ◌%◌, ◌≤◌, ◌<◌, true, false, none, some, List, [], ◌∷◌,
  if◌then◌else◌, get_elem?, ltb, ◌≡◌, inl, inr, refl, sym, ap, subst, ◌∙◌, arith, u64_mod,
  Bool-cases, length, All, All-mono,
}
use coroutine_lib.Scheduler.{Scheduler}
use coroutine_lib.Timer.{TimerManager}
use coroutine_lib.IoManager.{FdContext, IoManager}
use coroutine_lib.IoManager.Contexts.{new_context, new_io_manager, context_resize, resize_addresses}
use coroutine_lib.IoManager.Operations.{grow}
use coroutine_lib.IoManager.Pending.{IsConsistent, Sound, registered, count_of}

resize_addresses-valid :
    (n fresh : ℕ) (ps : List ℕ)
    → All (λ p. p < fresh) ps
    → All (λ p. p < fresh + (n - length ps)) (resize_addresses fresh n ps)
unfolding resize_addresses
resize_addresses-valid zero fresh ps h = tt
resize_addresses-valid (suc n) fresh [] h =
    (omega arith, All-mono _ _ _ (λ p k. omega arith) (resize_addresses-valid n (fresh + 1) [] tt))
resize_addresses-valid (suc n) fresh (p ∷ ps) h = (
  omega (arith, h.0),
  All-mono _ _ _ (λ q k. omega arith) (resize_addresses-valid n fresh ps h.1),
)

pub get_elem?-All {ℓ} :
    {A : Type ℓ} (P : A → Type 0) (xs : List A) (i : ℕ) (x : A)
    → get_elem? xs i ≡ some x
    → All P xs
    → P x
get_elem?-All P [] i x e h = cc
get_elem?-All P (y ∷ ys) zero x e h = subst P (ground arith) h.0
get_elem?-All P (y ∷ ys) (suc i) x e h = get_elem?-All P ys i x e h.1

resize_addresses_reads :
    (n fresh i : ℕ) (ps : List ℕ)
    → i < n
    → (p : ℕ) × (get_elem? (resize_addresses fresh n ps) i ≡ some p)
unfolding resize_addresses
resize_addresses_reads zero fresh i ps h = elim h [ ]
resize_addresses_reads (suc n) fresh zero [] h = (fresh, refl)
resize_addresses_reads (suc n) fresh (suc i) [] h =
    resize_addresses_reads n (fresh + 1) i [] (omega arith)
resize_addresses_reads (suc n) fresh zero (p ∷ ps) h = (p, refl)
resize_addresses_reads (suc n) fresh (suc i) (p ∷ ps) h =
    resize_addresses_reads n fresh i ps (omega arith)

registered_same :
    (f g : ℕ → FdContext) (n : ℕ) → ((q : ℕ) → q < n → f q ≡ g q) → registered f n ≡ registered g n
registered_same f g zero h = refl
registered_same f g (suc n) h = ground (
  arith,
  ap (λ c. count_of c.events) (h n (omega arith)),
  registered_same f g n (λ q k. h q (omega arith)),
)

registered_empty :
    (f : ℕ → FdContext) (n k t : ℕ)
    → t ≡ n + k
    → ((q : ℕ) → n ≤ q → count_of (f q).events ≡ 0)
    → registered f t ≡ registered f n
registered_empty f n zero t e h = ap (registered f) (omega (arith, e))
registered_empty f n (suc k) zero e h = absurd (omega (arith, e))
registered_empty f n (suc k) (suc t) e h =
    ground (arith, h t (omega (arith, e)), registered_empty f n k t (omega (arith, e)) h)

new_context-Sound : (fd : ℕ) → Sound (new_context fd)
new_context-Sound fd = ((refl, inr (refl, refl)), (refl, inr (refl, refl)))

length-resize_addresses : (n fresh : ℕ) (ps : List ℕ) → length (resize_addresses fresh n ps) ≡ n
unfolding resize_addresses
length-resize_addresses zero fresh ps = refl
length-resize_addresses (suc n) fresh [] = ap suc (length-resize_addresses n (fresh + 1) [])
length-resize_addresses (suc n) fresh (p ∷ ps) = ap suc (length-resize_addresses n fresh ps)

-- `contextResize` keeps a state consistent, even if it makes the vector shorter.
pub context_resize-IsConsistent :
    (size : ℕ) (m : IoManager) → 32 ≤ size → IsConsistent m → IsConsistent (context_resize size m)
unfolding context_resize
context_resize-IsConsistent size m h v = record {
  room = omega (arith, length-resize_addresses size m.fresh m.fd_contexts);
  counted = v.counted ∙ ap (λ r. r % u64_mod) (sym (grown ∙ kept));
  valid = resize_addresses-valid size m.fresh m.fd_contexts v.valid;
  sound = λ p h. elim (Bool-cases (ltb p m.fresh)) [
    | inl k ↦ rw k (v.sound p (ground arith))
    | inr k ↦ rw k (new_context-Sound (length m.fd_contexts + (p - m.fresh)))
  ];
}
  where
    at' : ℕ → FdContext
    at' q =
        if ltb q m.fresh then m.context_at q else new_context (length m.fd_contexts + (q - m.fresh))

    grown : registered at' (m.fresh + (size - length m.fd_contexts)) ≡ registered at' m.fresh
    grown =
        registered_empty at' m.fresh (size - length m.fd_contexts) _ refl
          (λ q h. let later : ltb q m.fresh ≡ false = ground arith in rw later refl)

    kept : registered at' m.fresh ≡ registered m.context_at m.fresh
    kept =
        registered_same at' m.context_at m.fresh
          (λ q h. let older : ltb q m.fresh ≡ true = ground arith in rw older refl)

pub get_elem?_past {ℓ} : {A : Type ℓ} (xs : List A) (i : ℕ) → get_elem? xs i ≡ none → length xs ≤ i
get_elem?_past [] i e = omega arith
get_elem?_past (x ∷ xs) zero e = cc
get_elem?_past (x ∷ xs) (suc i) e = omega (arith, get_elem?_past xs i e)

-- Past the end of a vector that has room, `addEvent` makes the vector long enough.
pub grow_finds :
    (n : ℕ) (m : IoManager)
    → 32 ≤ length m.fd_contexts
    → get_elem? m.fd_contexts n ≡ none
    → (p : ℕ) × (get_elem? (grow n m).fd_contexts n ≡ some p)
unfolding grow context_resize
grow_finds n m room e =
    resize_addresses_reads (n * 3 / 2) m.fresh n m.fd_contexts
      (omega (arith, room, get_elem?_past m.fd_contexts n e))

pub resize_addresses_past :
    (n fresh i : ℕ) (ps : List ℕ) → n ≤ i → get_elem? (resize_addresses fresh n ps) i ≡ none
unfolding resize_addresses
resize_addresses_past zero fresh i ps h = refl
resize_addresses_past (suc n) fresh zero ps h = absurd (omega arith)
resize_addresses_past (suc n) fresh (suc i) [] h =
    resize_addresses_past n (fresh + 1) i [] (omega arith)
resize_addresses_past (suc n) fresh (suc i) (p ∷ ps) h =
    resize_addresses_past n fresh i ps (omega arith)

pub new_io_manager-IsConsistent :
    (memory : ℕ → FdContext) (s : Scheduler) (t : TimerManager)
    → IsConsistent (new_io_manager memory s t)
unfolding new_io_manager context_resize resize_addresses
new_io_manager-IsConsistent memory s t = record {
  counted = refl;
  valid = resize_addresses-valid 32 0 [] tt;
  sound =
      λ p h. let made : ltb p 0 ≡ false = ground arith in rw made (new_context-Sound (0 + (p - 0)));
  room = omega arith;
}
