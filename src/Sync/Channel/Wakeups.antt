-- ===== src/Sync/Channel/Wakeups.antt =====
-- include/mycoroutine/sync.h, `Channel<T>`: no wake-up is lost.
use coroutine_lib.Prelude.{ℕ, true, List, ◌≡◌, ◌⊎◌}
use coroutine_lib.Sync.{FiberWaiter, Flags, is_waiting}
use coroutine_lib.Sync.Channel.{
  Channel, Pc, outside, sending, receiving, send_asleep, recv_asleep, notifying, System,
}

module _ {ℓ} {T : Type ℓ} where
  -- The fiber sleeps, or will once it has notified others.
  abbrev pub Sleeps : Pc T → Type 0
  Sleeps (send_asleep v) = Unit {0}
  Sleeps recv_asleep = Unit {0}
  Sleeps (notifying ws k) = Sleeps k
  Sleeps outside = ⊥
  Sleeps (sending v) = ⊥
  Sleeps receiving = ⊥

  -- Somebody will notify `f`.
  abbrev pub Announced : (ℕ → Pc T) → ℕ → Type ℓ
  Announced pc f =
      (g : ℕ) × (ws : List FiberWaiter) × (k : Pc T) × (pc g ≡ notifying ws k)
      × (is_waiting f ws ≡ true)

  abbrev pub Wakes : (ℕ → Pc T) → Flags → ℕ → Type ℓ
  Wakes pc notified f = (notified f ≡ true) ⊎ Announced pc f

  abbrev pub Queued : Channel T → ℕ → Type 0
  Queued c f = (is_waiting f c.sender_waiters ≡ true) ⊎ (is_waiting f c.receiver_waiters ≡ true)

  abbrev Heard : System T → Type ℓ
  Heard a = (f : ℕ) → Sleeps (a.pc f) → Queued a.channel f ⊎ Wakes a.pc a.notified f

  -- What a locked block does to the waiters: those that leave the queues are in the list.
  abbrev Hands : Channel T → Channel T → List FiberWaiter → Type 0
  Hands c d ws = (j : ℕ) → Queued c j → Queued d j ⊎ (is_waiting j ws ≡ true)
