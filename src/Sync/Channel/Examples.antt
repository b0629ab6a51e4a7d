-- ===== src/Sync/Channel/Examples.antt =====
-- A channel of capacity 1 on which fiber 1 sends 7 and fiber 2 receives it.
use coroutine_lib.Prelude.{ℕ, true, false, none, [], ◌∷◌, ◌++◌, ◌≡◌, ◌≤◌, refl, length}
use coroutine_lib.Sync.{store_flag}
use coroutine_lib.Sync.Channel.{
  recv_asleep, new_channel, send_block, recv_block, recv_from, close_block, can_send, outside,
  sending, receiving, notifying, System, call_send, send_done, call_recv, recv_done, Reach, here,
  next, start, move, to_wake,
}
use coroutine_lib.Sync.Channel.Delivery.{values_conserved, buffer_bounded}

abbrev empty : System ℕ
empty = start 1

abbrev filled : System ℕ
filled = record {
  channel = (send_block 1 7 empty.channel).0;
  notified = λ f. false;
  pc = move (move empty.pc 1 (sending 7)) 1 (notifying (to_wake none) outside);
  accepted = [] ++ 7 ∷ [];
  delivered = [];
}

filled-Reach : Reach (start 1) filled
unfolding send_block can_send new_channel
filled-Reach = next (next here (call_send 1 7 refl)) (send_done 1 7 none refl refl)

abbrev drained : System ℕ
drained = record {
  channel = (recv_block 2 filled.channel).0;
  notified = λ f. false;
  pc = move (move filled.pc 2 receiving) 2 (notifying (to_wake none) outside);
  accepted = [] ++ 7 ∷ [];
  delivered = [] ++ 7 ∷ [];
}

drained-Reach : Reach (start 1) drained
unfolding send_block can_send new_channel recv_block recv_from
drained-Reach = next (next filled-Reach (call_recv 2 refl)) (recv_done 2 7 none refl refl)

values_conserved_example : drained.delivered ++ drained.channel.buffer ≡ drained.accepted
values_conserved_example = values_conserved 1 drained drained-Reach

buffer_bounded_example : length filled.channel.buffer ≤ 1
buffer_bounded_example = buffer_bounded 1 filled filled-Reach

abbrev shut : System ℕ
shut = record {
  channel = (close_block filled.channel).0;
  notified = λ f. false;
  pc = move filled.pc 3 (notifying (close_block filled.channel).1 outside);
  accepted = [] ++ 7 ∷ [];
  delivered = [];
}

abbrev shut_later : System ℕ
shut_later = record shut { pc = move shut.pc 2 receiving }

shut_later-closed : shut.channel.closed ≡ true
unfolding send_block can_send new_channel close_block
shut_later-closed = refl

-- Fiber 2 waits for a value on the empty channel.
abbrev thirsty : System ℕ
thirsty = record {
  channel = (recv_block 2 empty.channel).0;
  notified = store_flag (λ f. false) 2 false;
  pc = move (move empty.pc 2 receiving) 2 (notifying (to_wake none) recv_asleep);
  accepted = [];
  delivered = [];
}
