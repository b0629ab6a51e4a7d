-- ===== src/Thread/Handshake.antt =====
-- src/thread.cpp: what holds when the constructor of a `Thread` returns, and after `join`.
use coroutine_lib.Prelude.{
  ℕ, ◌+◌, true, none, some, [], ◌∷◌, ◌≡◌, ◌≤◌, ◌⊎◌, inl, inr, refl, ap, ◌∙◌, arith,
}
use coroutine_lib.Prelude.Int.{ℤ}
use coroutine_lib.Thread.Start.{
  failed, asleep, joined, RunPc, not_started, signalled, in_callback, ended, System, start, Reach,
}
use coroutine_lib.Thread.Phases.{has_id, left, taken, runs, posted, has_returned, unstarted}
use coroutine_lib.Thread.Invariant.{start-Inv, Reach-Inv}

late :
    (cb : ℕ) (r : RunPc)
    → posted r ≡ 1
    → (has_id r ≡ true) × (left cb r ≡ none) × (taken cb r ≡ some cb)
late cb signalled h = (refl, refl, refl)
late cb in_callback h = (refl, refl, refl)
late cb ended h = (refl, refl, refl)
late cb r h = absurd (ground arith)

once : (cb : ℕ) (r : RunPc) → (runs cb r ≡ []) ⊎ (runs cb r ≡ cb ∷ [])
once cb in_callback = inr refl
once cb ended = inr refl
once cb r = inl refl

posted_once : (r : RunPc) → posted r ≤ 1
posted_once signalled = omega arith
posted_once in_callback = omega arith
posted_once ended = omega arith
posted_once r = omega arith

pub record Handshake (cb : ℕ) (tid : ℤ) (a : System) : Type 0 where
  pub returned :
      has_returned a.owner ≡ true
      → (a.thread.id ≡ tid)
        × (a.thread.cb ≡ none)
        × (a.own_cb ≡ some cb)
        × (a.locals.has_thread ≡ true)
        × (a.locals.name ≡ some a.thread.name)
        × (a.thread.count ≡ 0)
  pub waited : a.owner ≡ joined → (a.runner ≡ ended) × (a.called ≡ cb ∷ [])
  pub failing : a.owner ≡ failed → (a.runner ≡ not_started) × (a.called ≡ [])
  pub once : (a.called ≡ []) ⊎ (a.called ≡ cb ∷ [])
  pub notified : a.owner ≡ asleep → posted a.runner ≡ 1 → a.woken ≡ true

-- In every state that the constructor of a `Thread` and the new thread reach together, from the
-- object with the callback `cb` and its name on: when the constructor has returned, the object has
-- the new thread's number, which `Scheduler::start` reads, and the callback has passed from the
-- object to the new thread, whose own name is the object's, also after a `SetName`. After `join` the callback has been called, once,
-- and has ended. When the constructor has thrown, no thread runs. The callback is called at most
-- once. If the constructor sleeps on the semaphore and the new thread has signalled, it has been
-- notified.
pub start-Handshake :
    (cb name : ℕ) (tid : ℤ) (a : System) → Reach tid (start cb name) a → Handshake cb tid a
start-Handshake cb name tid a r =
    let inv = Reach-Inv cb tid (start-Inv cb name tid) r in
    record {
      returned = λ h.
          let one : a.thread.count + 1 ≡ posted a.runner = rw h at inv.counted in
          let posts : posted a.runner ≡ 1 = omega (arith, one, posted_once a.runner) in
          let (id, l, t) = late cb a.runner posts in
          let (number, mine, naming) = inv.numbered id in
          (number, inv.keeps ∙ l, inv.holds ∙ t, mine, naming, omega (arith, one, posts));
      waited = λ h. (inv.waited h, inv.called_so ∙ ap (runs cb) (inv.waited h));
      failing = λ h.
          let idle = unstarted a.runner (rw h at inv.created) in
          (idle, inv.called_so ∙ ap (runs cb) idle);
      once = elim (once cb a.runner) [
        | inl h ↦ inl (inv.called_so ∙ h)
        | inr h ↦ inr (inv.called_so ∙ h)
      ];
      notified = λ h posts.
          let all : a.thread.count + 0 ≡ posted a.runner = rw h at inv.counted in
          elim (inv.heard h) [
            | inl empty ↦ absurd (omega (arith, all, posts, empty))
            | inr woken ↦ woken
          ];
    }
