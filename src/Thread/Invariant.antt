-- ===== src/Thread/Invariant.antt =====
-- src/thread.cpp: what every step of the two threads keeps.
use coroutine_lib.Prelude.{
  ℕ, ◌+◌, true, some, [], ◌≡◌, ◌⊎◌, inl, inr, refl, sym, ap, ◌∙◌, arith, Bool-cases,
}
use coroutine_lib.Prelude.Int.{ℤ, pos}
use coroutine_lib.Thread.{
  Thread, is_zero, semaphore_wait, semaphore_signal, members, create, initialise, swap_cb, join,
  destroy, set_name,
}
use coroutine_lib.Thread.Start.{
  creating, asleep, joined, not_started, entered, initialised, swapped, signalled, ended, System,
  start, Step, create_fails, creates, waits, wakes, passes, inits, swaps, signals, calls, returns,
  renames, joins, destroys, Reach, here, next,
}
use coroutine_lib.Thread.Phases.{
  has_id, left, taken, runs, posted, has_created, passed, has_started, unstarted,
}

pub record Inv (cb : ℕ) (tid : ℤ) (a : System) : Type 0 where
  pub numbered :
      has_id a.runner ≡ true
      → (a.thread.id ≡ tid) × (a.locals.has_thread ≡ true) × (a.locals.name ≡ some a.thread.name)
  pub keeps : a.thread.cb ≡ left cb a.runner
  pub holds : a.own_cb ≡ taken cb a.runner
  pub counted : a.thread.count + passed a.owner ≡ posted a.runner
  pub called_so : a.called ≡ runs cb a.runner
  pub created : has_started a.runner ≡ has_created a.owner
  pub waited : a.owner ≡ joined → a.runner ≡ ended
  pub heard : a.owner ≡ asleep → (a.thread.count ≡ 0) ⊎ (a.woken ≡ true)

pub start-Inv : (cb name : ℕ) (tid : ℤ) → Inv cb tid (start cb name)
unfolding members
start-Inv cb name tid = record {
  numbered = λ h. absurd (ground arith);
  keeps = refl;
  holds = refl;
  counted = refl;
  called_so = refl;
  created = refl;
  waited = λ h. absurd (ground arith);
  heard = λ h. inl refl;
}

module _ (cb : ℕ) (tid : ℤ) {a : System} (inv : Inv cb tid a) where
  open inv use {numbered, keeps, holds, counted, called_so, created, waited, heard}

  -- `pthread_create` and `pthread_join` change the handle only.
  create_same :
      (rt : ℤ) (t : Thread) → create rt a.thread ≡ some t → t ≡ record a.thread { handle = true }
  unfolding create
  create_same rt t e = elim (Bool-cases (is_zero rt)) [
    | inl z ↦ ground arith
    | inr z ↦ absurd (ground arith)
  ]

  join_same :
      (t : Thread)
      → join (pos 0) a.thread ≡ some t
      → (t.name ≡ a.thread.name)
        × (t.id ≡ a.thread.id)
        × (t.cb ≡ a.thread.cb)
        × (t.count ≡ a.thread.count)
  unfolding join
  join_same t e = elim (Bool-cases a.thread.handle) [ inl z ↦ ground arith | inr z ↦ ground arith ]

  -- `SetName` changes names only.
  set_name_same :
      (n : ℕ)
      → ((set_name n a.locals a.thread).1.cb ≡ a.thread.cb)
        × ((set_name n a.locals a.thread).1.count ≡ a.thread.count)
  unfolding set_name
  set_name_same n = elim (Bool-cases a.locals.has_thread) [
    | inl mine ↦ rw mine (refl, refl)
    | inr other ↦ rw other (refl, refl)
  ]

  fresh : a.owner ≡ creating → a.runner ≡ not_started
  fresh p = unstarted a.runner (rw p at created)

  Step-numbered :
      {b : System}
      → Step tid a b
      → has_id b.runner ≡ true
      → (b.thread.id ≡ tid) × (b.locals.has_thread ≡ true) × (b.locals.name ≡ some b.thread.name)
  unfolding initialise swap_cb destroy set_name
  Step-numbered (creates rt t p e) h = absurd (ground arith)
  Step-numbered (inits p) h = (refl, refl, refl)
  Step-numbered (swaps p) h = numbered (rw p refl)
  Step-numbered (signals p) h = numbered (rw p refl)
  Step-numbered (calls f p e) h = numbered (rw p refl)
  Step-numbered (returns p) h = numbered (rw p refl)
  Step-numbered (joins t p r e) h =
      let (number, mine, naming) = numbered h in
      ((join_same t e).1 ∙ number, mine, naming ∙ ap some (sym (join_same t e).0))
  Step-numbered (renames n p) h =
      let (number, mine, naming) = numbered h in (rw mine number, mine, rw mine refl)
  Step-numbered st h = numbered h

  Step-keeps : {b : System} → Step tid a b → b.thread.cb ≡ left cb b.runner
  unfolding initialise swap_cb destroy set_name
  Step-keeps (creates rt t p e) =
      ap (λ x. x.cb) (create_same rt t e) ∙ keeps ∙ ap (left cb) (fresh p)
  Step-keeps (inits p) = keeps ∙ ap (left cb) p
  Step-keeps (swaps p) = refl
  Step-keeps (signals p) = keeps ∙ ap (left cb) p
  Step-keeps (calls f p e) = keeps ∙ ap (left cb) p
  Step-keeps (returns p) = keeps ∙ ap (left cb) p
  Step-keeps (joins t p r e) = (join_same t e).2 ∙ keeps
  Step-keeps (renames n p) = (set_name_same n).0 ∙ keeps
  Step-keeps st = keeps

  Step-holds : {b : System} → Step tid a b → b.own_cb ≡ taken cb b.runner
  unfolding initialise swap_cb destroy set_name
  Step-holds (creates rt t p e) = holds ∙ ap (taken cb) (fresh p)
  Step-holds (inits p) = holds ∙ ap (taken cb) p
  Step-holds (swaps p) = keeps ∙ ap (left cb) p
  Step-holds (signals p) = holds ∙ ap (taken cb) p
  Step-holds (calls f p e) = holds ∙ ap (taken cb) p
  Step-holds (returns p) = holds ∙ ap (taken cb) p
  Step-holds st = holds

  Step-called : {b : System} → Step tid a b → b.called ≡ runs cb b.runner
  Step-called (creates rt t p e) = called_so ∙ ap (runs cb) (fresh p)
  Step-called (inits p) = called_so ∙ ap (runs cb) p
  Step-called (swaps p) = called_so ∙ ap (runs cb) p
  Step-called (signals p) = called_so ∙ ap (runs cb) p
  Step-called (calls f p e) =
      let same : some f ≡ some cb = sym e ∙ holds ∙ ap (taken cb) p in
      let nothing : a.called ≡ [] = called_so ∙ ap (runs cb) p in ground arith
  Step-called (returns p) = called_so ∙ ap (runs cb) p
  Step-called st = called_so

  Step-counted : {b : System} → Step tid a b → b.thread.count + passed b.owner ≡ posted b.runner
  unfolding initialise swap_cb destroy set_name semaphore_wait semaphore_signal
  Step-counted (create_fails rt p e) = rw p at counted
  Step-counted (creates rt t p e) =
      let same : t.count ≡ a.thread.count = ap (λ x. x.count) (create_same rt t e) in
      let before : a.thread.count + 0 ≡ posted not_started = rw (p, fresh p) at counted in
      omega (arith, same, before)
  Step-counted (waits p e) = rw p at counted
  Step-counted (wakes p) = rw p at counted
  Step-counted (passes c p e) =
      let before : a.thread.count + 0 ≡ posted a.runner = rw p at counted in
      let one : a.thread.count ≡ c + 1 = ground arith in omega (arith, before, one)
  Step-counted (inits p) = rw p at counted
  Step-counted (swaps p) = rw p at counted
  Step-counted (signals p) =
      let before : a.thread.count + passed a.owner ≡ 0 = rw p at counted in omega (arith, before)
  Step-counted (calls f p e) = rw p at counted
  Step-counted (returns p) = rw p at counted
  Step-counted (joins t p r e) =
      let before : a.thread.count + 1 ≡ posted a.runner = rw p at counted in
      omega (arith, (join_same t e).3, before)
  Step-counted (renames n p) = ap (λ c. c + passed a.owner) (set_name_same n).1 ∙ counted
  Step-counted (destroys p) = rw p at counted

  Step-created : {b : System} → Step tid a b → has_started b.runner ≡ has_created b.owner
  Step-created (create_fails rt p e) = rw p at created
  Step-created (creates rt t p e) = refl
  Step-created (waits p e) = rw p at created
  Step-created (wakes p) = rw p at created
  Step-created (passes c p e) = rw p at created
  Step-created (inits p) = rw p at created
  Step-created (swaps p) = rw p at created
  Step-created (signals p) = rw p at created
  Step-created (calls f p e) = rw p at created
  Step-created (returns p) = rw p at created
  Step-created (joins t p r e) = rw p at created
  Step-created (renames n p) = created
  Step-created (destroys p) = rw p at created

  Step-waited : {b : System} → Step tid a b → b.owner ≡ joined → b.runner ≡ ended
  Step-waited (create_fails rt p e) h = absurd (ground arith)
  Step-waited (creates rt t p e) h = absurd (ground arith)
  Step-waited (waits p e) h = absurd (ground arith)
  Step-waited (wakes p) h = absurd (ground arith)
  Step-waited (passes c p e) h = absurd (ground arith)
  Step-waited (inits p) h = let x : entered ≡ ended = sym p ∙ waited h in absurd (ground arith)
  Step-waited (swaps p) h = let x : initialised ≡ ended = sym p ∙ waited h in absurd (ground arith)
  Step-waited (signals p) h = let x : swapped ≡ ended = sym p ∙ waited h in absurd (ground arith)
  Step-waited (calls f p e) h =
      let x : signalled ≡ ended = sym p ∙ waited h in absurd (ground arith)
  Step-waited (returns p) h = refl
  Step-waited (joins t p r e) h = r
  Step-waited (renames n p) h = waited h
  Step-waited (destroys p) h = absurd (ground arith)

  Step-heard :
      {b : System} → Step tid a b → b.owner ≡ asleep → (b.thread.count ≡ 0) ⊎ (b.woken ≡ true)
  unfolding initialise swap_cb destroy set_name semaphore_wait
  Step-heard (create_fails rt p e) h = absurd (ground arith)
  Step-heard (creates rt t p e) h = absurd (ground arith)
  Step-heard (waits p e) h = inl (ground arith)
  Step-heard (wakes p) h = absurd (ground arith)
  Step-heard (passes c p e) h = absurd (ground arith)
  Step-heard (signals p) h = inr refl
  Step-heard (joins t p r e) h = absurd (ground arith)
  Step-heard (destroys p) h = absurd (ground arith)
  Step-heard (renames n p) h = elim (heard h) [
    | inl e ↦ inl ((set_name_same n).1 ∙ e)
    | inr e ↦ inr e
  ]
  Step-heard st h = heard h

Step-Inv : (cb : ℕ) (tid : ℤ) {a b : System} → Inv cb tid a → Step tid a b → Inv cb tid b
Step-Inv cb tid inv st = record {
  numbered = Step-numbered cb tid inv st;
  keeps = Step-keeps cb tid inv st;
  holds = Step-holds cb tid inv st;
  counted = Step-counted cb tid inv st;
  called_so = Step-called cb tid inv st;
  created = Step-created cb tid inv st;
  waited = Step-waited cb tid inv st;
  heard = Step-heard cb tid inv st;
}

pub Reach-Inv : (cb : ℕ) (tid : ℤ) {a b : System} → Inv cb tid a → Reach tid a b → Inv cb tid b
Reach-Inv cb tid inv here = inv
Reach-Inv cb tid inv (next r st) = Step-Inv cb tid (Reach-Inv cb tid inv r) st
