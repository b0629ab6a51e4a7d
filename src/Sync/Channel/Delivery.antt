-- ===== src/Sync/Channel/Delivery.antt =====
-- include/mycoroutine/sync.h, `Channel<T>`: what becomes of the values.
use coroutine_lib.Prelude.{
  ℕ, ◌≤◌, ◌<◌, true, false, Option, List, [], ◌∷◌, ◌++◌, ◌==◌, if◌then◌else◌, ◌≡◌, ◌⊎◌, inl, refl,
  sym, ap, subst, ◌∙◌, length, length-append, arith, append_assoc,
}
use coroutine_lib.Sync.{FiberWaiter}
use coroutine_lib.Sync.Channel.{
  Channel, received, receiver_waits, sent, sender_waits, new_channel, recv_from, recv_block,
  send_block, close_block, System, Step, call_send, send_done, send_queued, recv_done, recv_queued,
  close, Reach, here, next, start,
}

-- A channel of capacity 0 hands one value over at a time.
abbrev pub room : ℕ → ℕ
room capacity = if capacity == 0 then 1 else capacity

module _ {ℓ} {T : Type ℓ} where
  abbrev pub IsShut : Channel T → Type 0
  IsShut c = (c.closed ≡ false) ⊎ ((c.sender_waiters ≡ []) × (c.receiver_waiters ≡ []))

  pub record Inv (n : ℕ) (a : System T) : Type ℓ where
    pub fixed : a.channel.capacity ≡ n
    pub ledger : a.delivered ++ a.channel.buffer ≡ a.accepted
    pub bounded : length a.channel.buffer ≤ room n
    pub shut : IsShut a.channel

  -- What the locked blocks do to the buffer.
  send_block_sent :
      (f : ℕ) (v : T) (w : Option FiberWaiter) (c : Channel T)
      → (send_block f v c).1 ≡ sent w
      → ((send_block f v c).0.buffer ≡ c.buffer ++ v ∷ [])
        × ((send_block f v c).0.capacity ≡ c.capacity)
        × IsShut (send_block f v c).0
        × (length c.buffer < room c.capacity)
  unfolding send_block
  send_block_sent f v w c e = ground arith

  send_block_waits :
      (f : ℕ) (v : T) (c : Channel T)
      → (send_block f v c).1 ≡ sender_waits
      → ((send_block f v c).0.buffer ≡ c.buffer)
        × ((send_block f v c).0.capacity ≡ c.capacity)
        × IsShut (send_block f v c).0
  unfolding send_block
  send_block_waits f v c e = ground arith

  recv_from_received :
      (f : ℕ) (v : T) (w : Option FiberWaiter) (buffer : List T) (c : Channel T)
      → (recv_from f buffer c).1 ≡ received v w
      → IsShut c
      → (buffer ≡ v ∷ (recv_from f buffer c).0.buffer)
        × ((recv_from f buffer c).0.capacity ≡ c.capacity)
        × IsShut (recv_from f buffer c).0
  unfolding recv_from
  recv_from_received f v w [] c e h = ground arith
  recv_from_received f v w (x ∷ xs) c e h = ground arith

  recv_from_waits :
      (f : ℕ) (w : Option FiberWaiter) (buffer : List T) (c : Channel T)
      → (recv_from f buffer c).1 ≡ receiver_waits w
      → ((recv_from f buffer c).0.buffer ≡ c.buffer)
        × ((recv_from f buffer c).0.capacity ≡ c.capacity)
        × IsShut (recv_from f buffer c).0
  unfolding recv_from
  recv_from_waits f w [] c e = ground arith
  recv_from_waits f w (x ∷ xs) c e = ground arith

  recv_from-closed :
      (f : ℕ) (buffer : List T) (c : Channel T)
      → c.closed ≡ true
      → (recv_from f buffer c).0.closed ≡ true
  unfolding recv_from
  recv_from-closed f [] c h = ground arith
  recv_from-closed f (x ∷ xs) c h = ground arith

  close_block_kept :
      (c : Channel T)
      → IsShut c
      → ((close_block c).0.buffer ≡ c.buffer)
        × ((close_block c).0.capacity ≡ c.capacity)
        × IsShut (close_block c).0
  unfolding close_block
  close_block_kept c h = ground arith

  module _ (n : ℕ) where
    Step-Inv : {a b : System T} → Inv n a → Step a b → Inv n b
    unfolding recv_block
    Step-Inv {a} v (send_done f x w p e) =
        let (buffer, capacity, shut, fits) = send_block_sent f x w a.channel e in
        record {
          fixed = capacity ∙ v.fixed;
          ledger = rw buffer (
              sym (append_assoc a.delivered a.channel.buffer (x ∷ []))
              ∙ ap (λ l. l ++ x ∷ []) v.ledger);
          bounded =
              let room_left = subst (λ k. length a.channel.buffer < room k) v.fixed fits in
              rw buffer (omega (arith, room_left, length-append a.channel.buffer (x ∷ [])));
          shut = shut;
        }
    Step-Inv {a} v (send_queued f x p e) =
        let (buffer, capacity, shut) = send_block_waits f x a.channel e in
        record {
          fixed = capacity ∙ v.fixed;
          ledger = rw buffer v.ledger;
          bounded = rw buffer v.bounded;
          shut = shut;
        }
    Step-Inv {a} v (recv_done f x w p e) =
        let (split, capacity, shut) =
          recv_from_received f x w a.channel.buffer a.channel e v.shut in
        record {
          fixed = capacity ∙ v.fixed;
          ledger =
              append_assoc a.delivered (x ∷ []) _
              ∙ ap (λ l. a.delivered ++ l) (sym split)
              ∙ v.ledger;
          bounded = omega (arith, ap length split, v.bounded);
          shut = shut;
        }
    Step-Inv {a} v (recv_queued f w p e) =
        let (buffer, capacity, shut) = recv_from_waits f w a.channel.buffer a.channel e in
        record {
          fixed = capacity ∙ v.fixed;
          ledger = rw buffer v.ledger;
          bounded = rw buffer v.bounded;
          shut = shut;
        }
    Step-Inv {a} v (close f p) =
        let (buffer, capacity, shut) = close_block_kept a.channel v.shut in
        record {
          fixed = capacity ∙ v.fixed;
          ledger = rw buffer v.ledger;
          bounded = rw buffer v.bounded;
          shut = shut;
        }
    Step-Inv v (call_send f x p) = record {
      fixed = v.fixed;
      ledger = v.ledger;
      bounded = v.bounded;
      shut = v.shut;
    }
    Step-Inv v st = record {
      fixed = v.fixed;
      ledger = v.ledger;
      bounded = v.bounded;
      shut = v.shut;
    }

    start-Inv : Inv n (start n)
    unfolding new_channel
    start-Inv = record { fixed = refl; ledger = refl; bounded = omega arith; shut = inl refl }

    pub Reach-Inv : {a : System T} → Reach (start n) a → Inv n a
    Reach-Inv here = start-Inv
    Reach-Inv (next r st) = Step-Inv (Reach-Inv r) st

  -- Nothing is lost, doubled or reordered: in every reachable state the values that `recv` has
  -- returned, followed by those in the buffer, are the values that `send` has accepted, in order.
  pub values_conserved :
      (n : ℕ) (a : System T) → Reach (start n) a → a.delivered ++ a.channel.buffer ≡ a.accepted
  values_conserved n a r = (Reach-Inv n r).ledger

  -- In every reachable state the buffer holds at most `capacity` values, and at most one where the
  -- capacity is 0.
  pub buffer_bounded : (n : ℕ) (a : System T) → Reach (start n) a → length a.channel.buffer ≤ room n
  buffer_bounded n a r = (Reach-Inv n r).bounded

  -- The channel stays closed.
  Step-closed :
      {a b : System T}
      → Step a b
      → a.channel.closed ≡ true
      → (b.channel.closed ≡ true) × (b.accepted ≡ a.accepted)
  unfolding send_block recv_block close_block
  Step-closed (send_done f x w p e) h = ground arith
  Step-closed (send_queued f x p e) h = ground arith
  Step-closed {a} (recv_done f x w p e) h = (recv_from-closed f a.channel.buffer a.channel h, refl)
  Step-closed {a} (recv_queued f w p e) h = (recv_from-closed f a.channel.buffer a.channel h, refl)
  Step-closed (close f p) h = ground arith
  Step-closed (call_send f x p) h = (h, refl)
  Step-closed st h = (h, refl)

  -- From a state with a closed channel on, the channel stays closed, and no value is accepted any
  -- more, whatever happens.
  pub closed_accepts_nothing :
      {a b : System T}
      → a.channel.closed ≡ true
      → Reach a b
      → (b.channel.closed ≡ true) × (b.accepted ≡ a.accepted)
  closed_accepts_nothing h here = (h, refl)
  closed_accepts_nothing h (next r st) =
      let (c, same) = closed_accepts_nothing h r in
      let (d, same') = Step-closed st c in (d, same' ∙ same)
