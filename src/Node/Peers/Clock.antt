-- ===== src/Node/Peers/Clock.antt =====
-- The Lamport clock of a node of backend/dfs/node/node.go, along a message.
use distributed_file_system.Prelude.{
  ℕ, zero, suc, ◌+◌, ◌-◌, ◌^◌, ◌≤◌, ◌<◌, ◌≡◌, refl, subst, ap, ◌⊎◌, inl, inr, Option, none, some,
  arith,
}
use distributed_file_system.Prelude.Int.{
  ℤ, pos, negsuc, pos_part, neg_part, ◌<ℤ◌, ◌≤ℤ◌, inc_int, max_int,
}
use distributed_file_system.Common.Messages.{Message, MessageWithTime}
use distributed_file_system.Node.{Node, increment_logical_time, update_logical_time}
use distributed_file_system.Node.Peers.{
  Attempt, no_connection, encoder_error, delivered, send_attempts, send_message,
}

inc-int_parts :
    (a : ℤ)
    → pos_part a < 2 ^ 63 - 1
    → pos_part (inc_int a) + neg_part a ≡ suc (pos_part a + neg_part (inc_int a))
inc-int_parts (pos n) h = ground arith
inc-int_parts (negsuc zero) h = omega arith
inc-int_parts (negsuc (suc n)) h = omega arith

inc-pos_part : (a : ℤ) → pos_part (inc_int a) ≤ suc (pos_part a)
inc-pos_part (pos n) = ground arith
inc-pos_part (negsuc zero) = omega arith
inc-pos_part (negsuc (suc n)) = omega arith

max_int_bounds :
    (a b : ℤ)
    → (a ≤ℤ max_int a b)
      × (b ≤ℤ max_int a b)
      × (pos_part a < 2 ^ 63 - 1 → pos_part b < 2 ^ 63 - 1 → pos_part (max_int a b) < 2 ^ 63 - 1)
max_int_bounds a b = ground arith

-- While both times are below the largest `int`, the time after a message is later than the node's
-- time before it and than the time in the message.
pub update_logical_time_later :
    (received : ℤ) (n : Node)
    → pos_part received < 2 ^ 63 - 1
    → pos_part n.logical_time < 2 ^ 63 - 1
    → (received <ℤ (update_logical_time received n).1)
      × (n.logical_time <ℤ (update_logical_time received n).1)
      × ((update_logical_time received n).0.logical_time ≡ (update_logical_time received n).1)
unfolding update_logical_time
update_logical_time_later received n p q =
    let top = max_int_bounds received n.logical_time in
    let step = inc-int_parts (max_int received n.logical_time) (top.2 p q) in
    (omega (arith, top.0, step), omega (arith, top.1, step), refl)

Attempt-cases : (a : Attempt) → (a ≡ no_connection) ⊎ ((a ≡ encoder_error) ⊎ (a ≡ delivered))
Attempt-cases no_connection = inl refl
Attempt-cases encoder_error = inr (inl refl)
Attempt-cases delivered = inr (inr refl)

time_of : (a b : MessageWithTime) → some a ≡ some b → a.logical_time ≡ b.logical_time
time_of a b h = ap time h
  where
    time : Option MessageWithTime → ℤ
    time none = a.logical_time
    time (some x) = x.logical_time

-- The time of what is delivered is later than the sender's was.
send_attempts_later :
    (net : ℕ → Attempt) (msg : Message) (left i : ℕ) (n : Node) (m : MessageWithTime)
    → pos_part n.logical_time + left < 2 ^ 63
    → (send_attempts net msg left i n).1 ≡ some m
    → (n.logical_time <ℤ m.logical_time)
      × (pos_part m.logical_time ≤ pos_part n.logical_time + left)
unfolding send_attempts increment_logical_time
send_attempts_later net msg zero i n m h e = absurd cc
send_attempts_later net msg (suc left) i n m h e = elim (Attempt-cases (net i)) [
  | inl c ↦
      let r =
        send_attempts_later net msg left (i + 1) n m (omega arith) (rw (c, send_attempts) at e) in
      (r.0, omega (arith, r.1))
  | inr (inl c) ↦
      let step = inc-int_parts n.logical_time (omega arith) in
      let low = inc-pos_part n.logical_time in
      let r =
        send_attempts_later net msg left (i + 1)
          (record n { logical_time = inc_int n.logical_time }) m (omega (arith, low))
          (rw (c, send_attempts) at e) in
      (omega (arith, r.0, step), omega (arith, r.1, low))
  | inr (inr c) ↦
      let step = inc-int_parts n.logical_time (omega arith) in
      let low = inc-pos_part n.logical_time in
      let same : inc_int n.logical_time ≡ m.logical_time =
        time_of (record { message = msg; logical_time = inc_int n.logical_time }) m
          (rw (c, send_attempts) at e) in
      (
        subst (λ t. n.logical_time <ℤ t) same (omega (arith, step)),
        subst (λ t. pos_part t ≤ pos_part n.logical_time + suc left) same (omega (arith, low)),
      )
]

-- Lamport's condition on a message: if the clocks of sender and receiver are at least four below
-- the largest `int`, then of a message that is delivered the receiver's time once it is taken in is later than the
-- sender's time before the send and than the receiver's time before.
pub send-receive_later :
    (net : ℕ → Attempt) (msg : Message) (sender receiver : Node) (m : MessageWithTime)
    → pos_part sender.logical_time + 4 < 2 ^ 63
    → pos_part receiver.logical_time + 4 < 2 ^ 63
    → (send_message net msg sender).1 ≡ some m
    → let after = (update_logical_time m.logical_time receiver).1 in
      (sender.logical_time <ℤ m.logical_time)
      × (sender.logical_time <ℤ after)
      × (receiver.logical_time <ℤ after)
unfolding send_message
send-receive_later net msg sender receiver m p q e =
    let sent = send_attempts_later net msg 3 0 sender m (omega arith) e in
    let taken =
      update_logical_time_later m.logical_time receiver (omega (arith, sent.1)) (omega arith) in
    (sent.0, omega (arith, sent.0, taken.0), taken.1)
