-- ===== src/Sync/Channel.antt =====
-- include/mycoroutine/sync.h, `Channel<T>`: its locked blocks, and the fibers that run through
-- them.
pub mod Delivery
pub mod Wakeups
mod Examples
use coroutine_lib.Prelude.{
  ℕ, Bool, true, false, not, ◌&&◌, Option, none, some, List, [], ◌∷◌, ◌++◌, ◌==◌, ltb,
  if◌then◌else◌, ◌≡◌, length, is_empty,
}
use coroutine_lib.Sync.{FiberWaiter, Flags, store_flag, pop_waiter_front}

pub record Channel {ℓ} (T : Type ℓ) : Type ℓ where
  pub capacity : ℕ
  pub closed : Bool
  pub buffer : List T
  pub sender_waiters : List FiberWaiter
  pub receiver_waiters : List FiberWaiter

-- How the locked block of `recv` ends: with a value, with `return false`, or before a suspension.
-- The waiter is the sender to wake, if any.
pub data Received {ℓ} (T : Type ℓ) : Type ℓ where
  received : T → Option FiberWaiter → Received T
  ended : Received T
  receiver_waits : Option FiberWaiter → Received T

-- The same for `sendImpl`; the waiter is the receiver to wake.
pub data Sent : Type 0 where
  sent : Option FiberWaiter → Sent
  refused : Sent
  sender_waits : Sent

module _ {ℓ} {T : Type ℓ} where
  unfoldable pub new_channel : ℕ → Channel T
  new_channel capacity = record {
    capacity = capacity;
    closed = false;
    buffer = [];
    sender_waiters = [];
    receiver_waiters = [];
  }

  -- By the buffer.
  unfoldable pub recv_from : ℕ → List T → Channel T → Channel T × Received T
  unfolding pop_waiter_front
  recv_from f (value ∷ rest) c =
      let (sender, senders) = pop_waiter_front c.sender_waiters in
      (record c { buffer = rest; sender_waiters = senders }, received value sender)
  recv_from f [] c =
      let (sender, senders) = pop_waiter_front c.sender_waiters in
      if c.closed then (c, ended) else (
        record c { sender_waiters = senders; receiver_waiters = c.receiver_waiters ++ f ∷ [] },
        receiver_waits sender,
      )

  unfoldable pub recv_block : ℕ → Channel T → Channel T × Received T
  unfolding recv_from
  recv_block f c = recv_from f c.buffer c

  unfoldable pub can_send : Channel T → Bool
  can_send c =
      if c.capacity == 0
      then not (is_empty c.receiver_waiters) && is_empty c.buffer
      else ltb (length c.buffer) c.capacity

  unfoldable pub send_block : ℕ → T → Channel T → Channel T × Sent
  unfolding can_send pop_waiter_front
  send_block f value c =
      let (receiver, receivers) = pop_waiter_front c.receiver_waiters in
      if c.closed
      then (c, refused)
      else if can_send c
      then (
        record c { buffer = c.buffer ++ value ∷ []; receiver_waiters = receivers },
        sent receiver,
      )
      else (record c { sender_waiters = c.sender_waiters ++ f ∷ [] }, sender_waits)

  -- The locked block of `close`, with the waiters to wake: both queues are emptied.
  unfoldable pub close_block : Channel T → Channel T × List FiberWaiter
  close_block c = if c.closed then (c, []) else (
    record c { closed = true; sender_waiters = []; receiver_waiters = [] },
    c.sender_waiters ++ c.receiver_waiters,
  )

  unfoldable pub size : Channel T → ℕ
  size c = length c.buffer

-- Where a fiber stands.
pub data Pc {ℓ} (T : Type ℓ) : Type ℓ where
  outside : Pc T
  sending : T → Pc T  -- before the locked block of `sendImpl`
  receiving : Pc T  -- before the locked block of `recv`
  send_asleep : T → Pc T  -- in `SuspendCurrentUntilNotified`
  recv_asleep : Pc T
  notifying : List FiberWaiter → Pc T → Pc T  -- before `NotifyWaiter`, and where it goes then

-- `delivered` and `accepted` are the values that calls of `recv` and `send` have taken so far.
pub record System {ℓ} (T : Type ℓ) : Type ℓ where
  pub channel : Channel T
  pub notified : Flags
  pub pc : ℕ → Pc T
  pub accepted : List T
  pub delivered : List T

abbrev pub to_wake : Option FiberWaiter → List FiberWaiter
to_wake none = []
to_wake (some w) = w ∷ []

abbrev pub move {ℓ} : {T : Type ℓ} → (ℕ → Pc T) → ℕ → Pc T → ℕ → Pc T
move pc f p g = if f == g then p else pc g

-- One locked block or one atomic access of one fiber.
pub data Step {ℓ} {T : Type ℓ} (a : System T) : System T → Type ℓ where
  call_send :
      (f : ℕ) (v : T) → a.pc f ≡ outside → Step a (record a { pc = move a.pc f (sending v) })
  call_recv : (f : ℕ) → a.pc f ≡ outside → Step a (record a { pc = move a.pc f receiving })
  send_done :
      (f : ℕ) (v : T) (w : Option FiberWaiter)
      → a.pc f ≡ sending v
      → (send_block f v a.channel).1 ≡ sent w
      → Step a (record a {
        channel = (send_block f v a.channel).0;
        pc = move a.pc f (notifying (to_wake w) outside);
        accepted = a.accepted ++ v ∷ [];
      })
  send_refused :
      (f : ℕ) (v : T)
      → a.pc f ≡ sending v
      → (send_block f v a.channel).1 ≡ refused
      → Step a (record a { pc = move a.pc f outside })
  send_queued :
      (f : ℕ) (v : T)
      → a.pc f ≡ sending v
      → (send_block f v a.channel).1 ≡ sender_waits
      → Step a (record a {
        channel = (send_block f v a.channel).0;
        notified = store_flag a.notified f false;
        pc = move a.pc f (send_asleep v);
      })
  recv_done :
      (f : ℕ) (v : T) (w : Option FiberWaiter)
      → a.pc f ≡ receiving
      → (recv_block f a.channel).1 ≡ received v w
      → Step a (record a {
        channel = (recv_block f a.channel).0;
        pc = move a.pc f (notifying (to_wake w) outside);
        delivered = a.delivered ++ v ∷ [];
      })
  recv_ended :
      (f : ℕ)
      → a.pc f ≡ receiving
      → (recv_block f a.channel).1 ≡ ended
      → Step a (record a { pc = move a.pc f outside })
  recv_queued :
      (f : ℕ) (w : Option FiberWaiter)
      → a.pc f ≡ receiving
      → (recv_block f a.channel).1 ≡ receiver_waits w
      → Step a (record a {
        channel = (recv_block f a.channel).0;
        notified = store_flag a.notified f false;
        pc = move a.pc f (notifying (to_wake w) recv_asleep);
      })
  wake_sender :
      (f : ℕ) (v : T)
      → a.pc f ≡ send_asleep v
      → a.notified f ≡ true
      → Step a (record a { pc = move a.pc f (sending v) })
  wake_receiver :
      (f : ℕ)
      → a.pc f ≡ recv_asleep
      → a.notified f ≡ true
      → Step a (record a { pc = move a.pc f receiving })
  notify_waiter :
      (f w : ℕ) (ws : List FiberWaiter) (k : Pc T)
      → a.pc f ≡ notifying (w ∷ ws) k
      → Step a
          (record a { notified = store_flag a.notified w true; pc = move a.pc f (notifying ws k) })
  notified_all :
      (f : ℕ) (k : Pc T) → a.pc f ≡ notifying [] k → Step a (record a { pc = move a.pc f k })
  close :
      (f : ℕ)
      → a.pc f ≡ outside
      → Step a (record a {
        channel = (close_block a.channel).0;
        pc = move a.pc f (notifying (close_block a.channel).1 outside);
      })

pub data Reach {ℓ} {T : Type ℓ} (a : System T) : System T → Type ℓ where
  here : Reach a a
  next : {b c : System T} → Reach a b → Step b c → Reach a c

abbrev pub start {ℓ} : {T : Type ℓ} → ℕ → System T
start capacity = record {
  channel = new_channel capacity;
  notified = λ f. false;
  pc = λ f. outside;
  accepted = [];
  delivered = [];
}
