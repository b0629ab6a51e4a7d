-- ===== src/Sync/WaitGroup/Wakeups.antt =====
-- include/mycoroutine/sync.h, `WaitGroup`: no wake-up is lost.
use coroutine_lib.Prelude.{
  ℕ, true, some, List, [], ◌∷◌, ◌==◌, ◌≡◌, ◌≢◌, ◌⊎◌, inl, inr, refl, sym, ap, ◌∙◌, arith,
  Bool-cases, Option-cases,
}
use native.Mathlib.Decide.{ℕ_discrete}
use coroutine_lib.Prelude.Int.{ℤ}
use coroutine_lib.Sync.{FiberWaiter, Flags, is_waiting, is_waiting-append}
use coroutine_lib.Sync.WaitGroup.{
  WaitGroup, new_wait_group, next_count, add_block, wait_block, Pc, outside, waiting, asleep,
  notifying, System, move, Step, add, call_wait, wait_returns, wait_queued, wake, notify_waiter,
  notified_all, Reach, here, next, start,
}

-- Somebody will notify `f`.
abbrev pub Announced : (ℕ → Pc) → ℕ → Type 0
Announced pc f =
    (g : ℕ) × (ws : List FiberWaiter) × (pc g ≡ notifying ws) × (is_waiting f ws ≡ true)

abbrev pub Wakes : (ℕ → Pc) → Flags → ℕ → Type 0
Wakes pc notified f = (notified f ≡ true) ⊎ Announced pc f

pub record Inv (a : System) : Type 0 where
  pub idle : a.group.count ≡ 0 → a.group.waiters ≡ []
  pub heard :
      (f : ℕ) → a.pc f ≡ asleep → (is_waiting f a.group.waiters ≡ true) ⊎ Wakes a.pc a.notified f

-- A fiber that was not notifying anybody moves.
still-Announced :
    (pc : ℕ → Pc) (f j : ℕ) (p q : Pc)
    → pc f ≡ q
    → ((ws : List FiberWaiter) → is_waiting j ws ≡ true → q ≢ notifying ws)
    → Announced pc j
    → Announced (move pc f p) j
still-Announced pc f j p q e n (g, ws, at, l) = elim (ℕ_discrete f g) [
  | yes same ↦ absurd (n ws l (sym e ∙ ap pc same ∙ at))
  | no other ↦ (g, ws, ground arith, l)
]

-- The two ends of `add`.
add_block_cases :
    (delta : ℤ) (g h : WaitGroup) (ws : List FiberWaiter)
    → add_block delta g ≡ some (h, ws)
    → ((h.waiters ≡ []) × (ws ≡ g.waiters)) ⊎ ((h.waiters ≡ g.waiters) × (h.count ≢ 0))
unfolding add_block
add_block_cases delta g h ws e = elim (Option-cases (next_count g.count delta)) [
  | inl n ↦ ground arith
  | inr (c, k) ↦ elim (Bool-cases (c == 0)) [
    | inl z ↦ inl (ground arith)
    | inr z ↦ inr (ground arith)
  ]
]

left_over :
    (w j : ℕ) (ws vs : List FiberWaiter)
    → notifying (w ∷ ws) ≡ notifying vs
    → w ≢ j
    → is_waiting j vs ≡ true
    → is_waiting j ws ≡ true
left_over w j ws vs e n l = ground arith

module _ {a : System} (inv : Inv a) where
  open inv use {idle, heard}

  Step-idle : {b : System} → Step a b → b.group.count ≡ 0 → b.group.waiters ≡ []
  unfolding wait_block
  Step-idle (add f delta g ws p e) h = elim (add_block_cases delta a.group g ws e) [
    | inl (empty, _) ↦ empty
    | inr (_, n) ↦ absurd (n h)
  ]
  Step-idle (wait_queued f p e) h = ground arith
  Step-idle (call_wait f p) h = idle h
  Step-idle st h = idle h

  others :
      (f j : ℕ) (p q : Pc)
      → a.pc f ≡ q
      → ((ws : List FiberWaiter) → is_waiting j ws ≡ true → q ≢ notifying ws)
      → p ≢ asleep
      → move a.pc f p j ≡ asleep
      → (is_waiting j a.group.waiters ≡ true) ⊎ Wakes (move a.pc f p) a.notified j
  others f j p q e n np h = elim (ℕ_discrete f j) [
    | yes same ↦ absurd (ground arith)
    | no other ↦ elim (heard j (ground arith)) [
      | inl w ↦ inl w
      | inr (inl w) ↦ inr (inl w)
      | inr (inr w) ↦ inr (inr (still-Announced a.pc f j p q e n w))
    ]
  ]

  Step-heard :
      {b : System}
      → Step a b
      → (j : ℕ) → b.pc j ≡ asleep
      → (is_waiting j b.group.waiters ≡ true) ⊎ Wakes b.pc b.notified j
  unfolding wait_block
  Step-heard (add f delta g ws p e) j h =
      elim (others f j (notifying ws) outside p (λ ws l k. cc) (λ k. cc) h) [
        | inr w ↦ inr w
        | inl q ↦ elim (add_block_cases delta a.group g ws e) [
          | inl (_, same) ↦ inr (inr (f, ws, ground arith, ap (is_waiting j) same ∙ q))
          | inr (kept, _) ↦ inl (ap (is_waiting j) kept ∙ q)
        ]
      ]
  Step-heard (call_wait f p) j h = others f j waiting outside p (λ ws l k. cc) (λ k. cc) h
  Step-heard (wait_returns f p e) j h = others f j outside waiting p (λ ws l k. cc) (λ k. cc) h
  Step-heard (wait_queued f p e) j h =
      let joins = is_waiting-append j f a.group.waiters in
      elim (ℕ_discrete f j) [
        | yes same ↦ inl (ground (arith, joins))
        | no other ↦ elim (heard j (ground arith)) [
          | inl w ↦ inl (ground (arith, joins))
          | inr (inl w) ↦ inr (inl (ground arith))
          | inr (inr w) ↦ inr (inr (still-Announced a.pc f j asleep waiting p (λ ws l k. cc) w))
        ]
      ]
  Step-heard (wake f p e) j h = others f j waiting asleep p (λ ws l k. cc) (λ k. cc) h
  Step-heard (notify_waiter f w ws p) j h = elim (heard j (ground arith)) [
    | inl q ↦ inl q
    | inr (inl q) ↦ inr (inl (ground arith))
    | inr (inr (g, vs, at, l)) ↦ elim (ℕ_discrete f g) [
      | no other ↦ inr (inr (g, vs, ground arith, l))
      | yes same ↦ elim (ℕ_discrete w j) [
        | yes reached ↦ inr (inl (ground arith))
        | no other ↦
            inr (inr (f, ws, ground arith, left_over w j ws vs (sym p ∙ ap a.pc same ∙ at) other l))
      ]
    ]
  ]
  Step-heard (notified_all f p) j h =
      others f j outside (notifying []) p (λ ws l k. ground arith) (λ k. cc) h

Reach-Inv : {a : System} → Reach start a → Inv a
unfolding new_wait_group
Reach-Inv here = record { idle = λ h. refl; heard = λ f h. cc }
Reach-Inv (next r st) = record {
  idle = Step-idle (Reach-Inv r) st;
  heard = Step-heard (Reach-Inv r) st;
}

-- No wake-up is lost: in every reachable state a fiber that sleeps in `wait` either is in the queue
-- while the count is above 0, or its flag is set, or a fiber that ran `add` is about to set it.
pub wait_not_lost :
    {a : System}
    → Reach start a
    → (f : ℕ) → a.pc f ≡ asleep
    → ((is_waiting f a.group.waiters ≡ true) × (a.group.count ≢ 0)) ⊎ Wakes a.pc a.notified f
wait_not_lost {a} r f p =
    let inv = Reach-Inv r in
    elim (inv.heard f p) [ inr w ↦ inr w | inl w ↦ inl (w, λ z. ground (arith, inv.idle z)) ]
