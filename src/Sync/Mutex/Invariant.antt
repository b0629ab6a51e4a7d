-- ===== src/Sync/Mutex/Invariant.antt =====
-- include/mycoroutine/sync.h, `CoMutex`: what holds in every reachable state.
use coroutine_lib.Prelude.{
  ℕ, Bool, true, false, ◌&&◌, [], ◌==◌, ◌≡◌, refl, sym, subst, ◌⊎◌, inl, inr, arith, ◌≢◌, ◌∙◌,
}
use native.Mathlib.Decide.{ℕ_discrete}
use coroutine_lib.Sync.{Flags, store_flag, is_waiting, is_waiting-append, Unique, Unique-append}
use coroutine_lib.Sync.Mutex.{
  CoMutex, new_mutex, lock_block, lock_recheck, try_lock, unlock_block, Pc, outside, trying,
  suspended, woken, held, notifying, System, move, Step, call_lock, lock_at_once, lock_queued, wake,
  lock_returns, lock_again, try_succeeds, unlock_free, unlock_pass, notify_waiter, start, Reach,
  here, next,
}

abbrev pub owns : CoMutex → ℕ → Bool
owns m f = m.locked && m.owner_fiber_id == f

-- Somebody is about to notify `f`.
abbrev pub Announced : (ℕ → Pc) → ℕ → Type 0
Announced pc f = (g : ℕ) × (pc g ≡ notifying f)

-- A fiber that has the lock, or will get it: its flag is set, or is about to be set.
abbrev pub GetsOn : (ℕ → Pc) → Flags → ℕ → Type 0
GetsOn pc notified f =
    (pc f ≡ held) ⊎ ((pc f ≡ woken) ⊎ ((pc f ≡ suspended) × ((notified f ≡ true) ⊎ Announced pc f)))

-- A step of another fiber, unless it is the announced one, leaves that as it is.
others_get_on :
    (pc : ℕ → Pc) (notified flags : Flags) (f j : ℕ) (p : Pc)
    → f ≢ j
    → flags j ≡ notified j
    → pc f ≢ notifying j
    → GetsOn pc notified j
    → GetsOn (move pc f p) flags j
others_get_on pc notified flags f j p d same n (inl h) = inl (ground arith)
others_get_on pc notified flags f j p d same n (inr (inl h)) = inr (inl (ground arith))
others_get_on pc notified flags f j p d same n (inr (inr (h, inl flag))) =
    inr (inr (ground arith, inl (ground arith)))
others_get_on pc notified flags f j p d same n (inr (inr (h, inr (g, e)))) =
    inr (inr (ground arith, inr (g, ground arith)))

pub record Inv (a : System) : Type 0 where
  pub free : a.mutex.locked ≡ false → a.mutex.waiters ≡ []
  pub unique : Unique a.mutex.waiters
  pub queued :
      (f : ℕ)
      → is_waiting f a.mutex.waiters ≡ true
      → (a.pc f ≡ suspended) × (a.notified f ≡ false) × (owns a.mutex f ≡ false)
  pub asleep :
      (f : ℕ) → a.pc f ≡ suspended → (is_waiting f a.mutex.waiters ≡ true) ⊎ (owns a.mutex f ≡ true)
  pub inside : (f : ℕ) → (a.pc f ≡ held) ⊎ (a.pc f ≡ woken) → owns a.mutex f ≡ true
  pub announced :
      (g w : ℕ)
      → a.pc g ≡ notifying w
      → (owns a.mutex w ≡ true) × (a.pc w ≡ suspended) × (a.notified w ≡ false)
  pub single : (g h w : ℕ) → a.pc g ≡ notifying w → a.pc h ≡ notifying w → g ≡ h
  pub alive : (f : ℕ) → owns a.mutex f ≡ true → GetsOn a.pc a.notified f

module _ {a : System} (inv : Inv a) where
  open inv use {free, unique, queued, asleep, inside, announced, single, alive}

  Step-free : {b : System} → Step a b → b.mutex.locked ≡ false → b.mutex.waiters ≡ []
  unfolding lock_block try_lock unlock_block
  Step-free (call_lock f p) h = free h
  Step-free st h = ground (arith, free)

  Step-queued :
      {b : System}
      → Step a b
      → (j : ℕ) → is_waiting j b.mutex.waiters ≡ true
      → (b.pc j ≡ suspended) × (b.notified j ≡ false) × (owns b.mutex j ≡ false)
  unfolding lock_block try_lock unlock_block
  Step-queued (call_lock f p) j h = ground (arith, queued j)
  Step-queued (lock_at_once f p e) j h = ground (arith, queued j, free)
  Step-queued (lock_queued f p e) j h =
      ground (arith, queued j, is_waiting-append j f a.mutex.waiters, alive f)
  Step-queued (wake f p e) j h = ground (arith, queued j)
  Step-queued (lock_returns f p e) j h = ground (arith, queued j)
  Step-queued (lock_again f p e) j h = ground (arith, queued j)
  Step-queued (try_succeeds f p e) j h = ground (arith, queued j, free)
  Step-queued (unlock_free f p e) j h = ground (arith, queued j)
  Step-queued (unlock_pass f w p e) j h = ground (arith, queued j, queued w, unique)
  Step-queued (notify_waiter f w p) j h = ground (arith, queued j, announced f w)

  Step-Unique : {b : System} → Step a b → Unique b.mutex.waiters
  unfolding lock_block try_lock unlock_block
  Step-Unique (lock_queued f p e) =
      ground (arith, Unique-append f a.mutex.waiters, queued f, unique)
  Step-Unique (unlock_free f p e) = ground (arith, unique)
  Step-Unique (unlock_pass f w p e) = ground (arith, unique)
  Step-Unique (lock_at_once f p e) =
      let same : a.mutex.waiters ≡ (lock_block f a.mutex).0.waiters = ground arith in
      subst Unique same unique
  Step-Unique (try_succeeds f p e) =
      let same : a.mutex.waiters ≡ (try_lock f a.mutex).0.waiters = ground arith in
      subst Unique same unique
  Step-Unique (call_lock f p) = unique
  Step-Unique st = unique

  Step-asleep :
      {b : System}
      → Step a b
      → (j : ℕ) → b.pc j ≡ suspended
      → (is_waiting j b.mutex.waiters ≡ true) ⊎ (owns b.mutex j ≡ true)
  unfolding lock_block try_lock unlock_block
  Step-asleep (call_lock f p) j h = ground (arith, asleep j)
  Step-asleep (lock_at_once f p e) j h = ground (arith, asleep j, free)
  Step-asleep (lock_queued f p e) j h =
      ground (arith, asleep j, is_waiting-append j f a.mutex.waiters)
  Step-asleep (wake f p e) j h = ground (arith, asleep j)
  Step-asleep (lock_returns f p e) j h = ground (arith, asleep j)
  Step-asleep (lock_again f p e) j h = ground (arith, asleep j)
  Step-asleep (try_succeeds f p e) j h = ground (arith, asleep j, free)
  Step-asleep (unlock_free f p e) j h = ground (arith, asleep j, inside f)
  Step-asleep (unlock_pass f w p e) j h = ground (arith, asleep j, inside f)
  Step-asleep (notify_waiter f w p) j h = ground (arith, asleep j)

  Step-inside :
      {b : System} → Step a b → (j : ℕ) → (b.pc j ≡ held) ⊎ (b.pc j ≡ woken) → owns b.mutex j ≡ true
  unfolding lock_block try_lock unlock_block lock_recheck
  Step-inside (call_lock f p) j h = ground (arith, inside j)
  Step-inside (lock_at_once f p e) j h = ground (arith, inside j)
  Step-inside (lock_queued f p e) j h = ground (arith, inside j)
  Step-inside (wake f p e) j h = ground (arith, inside j, asleep f, queued f)
  Step-inside (lock_returns f p e) j h = ground (arith, inside j, inside f)
  Step-inside (lock_again f p e) j h = ground (arith, inside j)
  Step-inside (try_succeeds f p e) j h = ground (arith, inside j)
  Step-inside (unlock_free f p e) j h = ground (arith, inside j, inside f)
  Step-inside (unlock_pass f w p e) j h = ground (arith, inside j, inside f)
  Step-inside (notify_waiter f w p) j h = ground (arith, inside j)

  Step-announced :
      {b : System}
      → Step a b
      → (g w : ℕ) → b.pc g ≡ notifying w
      → (owns b.mutex w ≡ true) × (b.pc w ≡ suspended) × (b.notified w ≡ false)
  unfolding lock_block try_lock unlock_block
  Step-announced (call_lock f p) g w h = ground (arith, announced g w)
  Step-announced (lock_at_once f p e) g w h = ground (arith, announced g w)
  Step-announced (lock_queued f p e) g w h = ground (arith, announced g w)
  Step-announced (wake f p e) g w h = ground (arith, announced g w)
  Step-announced (lock_returns f p e) g w h = ground (arith, announced g w)
  Step-announced (lock_again f p e) g w h = ground (arith, announced g w)
  Step-announced (try_succeeds f p e) g w h = ground (arith, announced g w)
  Step-announced (unlock_free f p e) g w h = ground (arith, announced g w, inside f)
  Step-announced (unlock_pass f v p e) g w h = ground (arith, announced g w, inside f, queued v)
  Step-announced (notify_waiter f v p) g w h =
      ground (arith, announced g w, announced f v, single f g w)

  Step-single :
      {b : System} → Step a b → (g h w : ℕ) → b.pc g ≡ notifying w → b.pc h ≡ notifying w → g ≡ h
  Step-single (call_lock f p) g h w x y = ground (arith, single g h w)
  Step-single (unlock_pass f v p e) g h w x y =
      ground (arith, single g h w, announced g w, announced h w, inside f)
  Step-single st g h w x y = ground (arith, single g h w)

  -- The owner is no fiber outside of `lock` and `unlock`, nor one that is still trying.
  owner_not : (f j : ℕ) → (a.pc f ≡ outside) ⊎ (a.pc f ≡ trying) → owns a.mutex j ≡ true → f ≢ j
  owner_not f j p h e = elim (alive j h) [
    | inl k ↦ ground arith
    | inr (inl k) ↦ ground arith
    | inr (inr (k, _)) ↦ ground arith
  ]

  stays_alive :
      (f j : ℕ) (p q : Pc)
      → a.pc f ≡ q
      → f ≢ j
      → q ≢ notifying j
      → owns a.mutex j ≡ true
      → GetsOn (move a.pc f p) a.notified j
  stays_alive f j p q e d n h =
      others_get_on a.pc a.notified a.notified f j p d refl (λ k. n (sym e ∙ k)) (alive j h)

  Step-alive : {b : System} → Step a b → (j : ℕ) → owns b.mutex j ≡ true → GetsOn b.pc b.notified j
  unfolding lock_block try_lock unlock_block lock_recheck
  Step-alive (call_lock f p) j h =
      stays_alive f j trying outside p (owner_not f j (inl p) h) (λ k. cc) h
  Step-alive (lock_at_once f p e) j h = inl (ground arith)
  Step-alive (lock_queued f p e) j h =
      let owned : owns a.mutex j ≡ true = ground arith in
      let d = owner_not f j (inr p) owned in
      others_get_on a.pc a.notified (store_flag a.notified f false) f j suspended d (ground arith)
        (λ k. cc) (alive j owned)
  Step-alive (wake f p e) j h = elim (ℕ_discrete f j) [
    | yes k ↦ inr (inl (ground arith))
    | no k ↦ stays_alive f j woken suspended p k (λ k. cc) h
  ]
  Step-alive (lock_returns f p e) j h = elim (ℕ_discrete f j) [
    | yes k ↦ inl (ground arith)
    | no k ↦ stays_alive f j held woken p k (λ k. cc) h
  ]
  Step-alive (lock_again f p e) j h = absurd (ground (arith, inside f))
  Step-alive (try_succeeds f p e) j h = inl (ground arith)
  Step-alive (unlock_free f p e) j h = ground (arith, inside f)
  Step-alive (unlock_pass f v p e) j h =
      inr (inr (ground (arith, queued v), inr (f, ground (arith, queued v))))
  Step-alive (notify_waiter f v p) j h =
      inr (inr (ground (arith, announced f v), inl (ground (arith, announced f v))))

pub Step-Inv : {a b : System} → Inv a → Step a b → Inv b
Step-Inv v st = record {
  free = Step-free v st;
  unique = Step-Unique v st;
  queued = Step-queued v st;
  asleep = Step-asleep v st;
  inside = Step-inside v st;
  announced = Step-announced v st;
  single = Step-single v st;
  alive = Step-alive v st;
}

start-Inv : Inv start
unfolding new_mutex
start-Inv = record {
  free = λ h. refl;
  unique = tt;
  queued = λ f h. cc;
  asleep = λ f h. cc;
  inside = λ f h. ground arith;
  announced = λ g w h. cc;
  single = λ g h w x y. cc;
  alive = λ f h. cc;
}

pub Reach-Inv : {a : System} → Reach start a → Inv a
Reach-Inv here = start-Inv
Reach-Inv (next r st) = Step-Inv (Reach-Inv r) st
