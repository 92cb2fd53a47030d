-- ===== src/Node/Locks/Entry.antt =====
-- When `CanEnterCriticalSection` of backend/dfs/node/node.go lets a node in.
use distributed_file_system.Prelude.{
  ℕ, ◌≤◌, ◌≡◌, refl, sym, ap, subst, ◌∙◌, Bool, true, false, List, [], ◌∷◌, Bytes, All,
  if◌then◌else◌, ◌==◌, nat_eq, bytes_eq, bytes_beq_iff, Bool-cases, inl, inr, length, arith,
}
use distributed_file_system.Prelude.Sort.{IsSorted}
use distributed_file_system.Prelude.Map.{Map, lookup, lookup-insert}
use distributed_file_system.Common.Types.{NodeId, Uuid, LockRequest}
use distributed_file_system.Common.Lamport.{compare_lock_requests}
use distributed_file_system.Node.Locks.{
  LockTable, or_empty, queue_of, is_timed_out, expire_heads, count_acked, may_enter, can_enter,
}
use distributed_file_system.Node.Locks.Queues.{QueuesOrdered, expire_heads-IsOrdered}

-- The queue without the timed out requests at its head.
pub live_queue : ℕ → List LockRequest → List LockRequest
live_queue now [] = []
live_queue now (req ∷ queue) = if is_timed_out now req then live_queue now queue else req ∷ queue

expire_heads-live_queue :
    (r : Bytes) (now : ℕ) (self : NodeId) (queue : List LockRequest)
    (acks : Map Bytes (Map NodeId Bool))
    → (expire_heads r now self queue acks).0 ≡ live_queue now queue
unfolding expire_heads live_queue
expire_heads-live_queue r now self [] acks = refl
expire_heads-live_queue r now self (req ∷ queue) acks = elim (Bool-cases (is_timed_out now req)) [
  | inl e ↦ rw (e, expire_heads) (expire_heads-live_queue r now self queue _)
  | inr e ↦ rw (e, expire_heads)
]

live_head :
    (now : ℕ) (queue rest : List LockRequest) (own : LockRequest)
    → live_queue now queue ≡ own ∷ rest
    → is_timed_out now own ≡ false
unfolding live_queue
live_head now [] rest own h = cc
live_head now (req ∷ queue) rest own h = ground (arith, live_head now queue rest own)

-- A node that is let in: its own request, which has not timed out, heads the queue and no other
-- request there is less; the nodes that are noted as having acknowledged it, be they peers or not,
-- are at least as many as the peers.
pub record Enters (u : Uuid) (r : Bytes) (now : ℕ) (self : NodeId) (peers : ℕ) (t : LockTable)
    : Type 0 where
  pub own : LockRequest
  pub rest : List LockRequest
  pub heads : queue_of r t ≡ own ∷ rest
  pub is_own : own.node_id ≡ self
  pub live : is_timed_out now own ≡ false
  pub least : All (λ req. compare_lock_requests u req own ≡ false) rest
  pub acked : peers ≤ count_acked (or_empty (lookup r t.pending_acks))

head_of_may_enter :
    (r : Bytes) (self : NodeId) (peers : ℕ) (queue : List LockRequest)
    (acks : Map Bytes (Map NodeId Bool))
    → may_enter r self peers queue acks ≡ true
    → (own : LockRequest) × (rest : List LockRequest) × (queue ≡ own ∷ rest)
      × (own.node_id ≡ self)
      × (peers ≤ count_acked (or_empty (lookup r acks)))
unfolding may_enter
head_of_may_enter r self peers [] acks h = cc
head_of_may_enter r self peers (first ∷ queue) acks h =
    (first, queue, refl, ground arith, ground arith)

-- If the queues are in the order of the timestamps and `CanEnterCriticalSection` says yes for a
-- number of peers, the queue that it leaves is headed by the node's own live request, no other
-- request in it is less, and the acknowledgements that are noted for the resource, of peers or of
-- nodes that have left, are at least of that number.
pub can_enter-Enters :
    (u : Uuid) (r : Bytes) (now : ℕ) (self : NodeId) (peers : ℕ) (t : LockTable)
    → QueuesOrdered u t
    → (can_enter r now self peers t).0 ≡ true
    → Enters u r now self peers (can_enter r now self peers t).1
unfolding can_enter
can_enter-Enters u r now self peers t o entered = elim (Bool-cases (length (queue_of r t) == 0)) [
  | inl e ↦ absurd (ground arith)
  | inr e ↦
      let queue = (expire_heads r now self (queue_of r t) t.pending_acks).0 in
      let acks = (expire_heads r now self (queue_of r t) t.pending_acks).1 in
      let (own, rest, p, q, a) = head_of_may_enter r self peers queue acks (ground arith) in
      let s =
        subst (IsSorted (compare_lock_requests u)) p
          (expire_heads-IsOrdered u r now self (queue_of r t) t.pending_acks (o r)) in
      rw (e, can_enter)
        (record {
          own = own;
          rest = rest;
          heads = ground (arith, lookup-insert r r queue t.queues, bytes_beq_iff r r);
          is_own = q;
          live =
              live_head now (queue_of r t) rest own
                (sym (expire_heads-live_queue r now self (queue_of r t) t.pending_acks) ∙ p);
          least = s.0;
          acked = a;
        })
]

winner :
    (r : Bytes) (now : ℕ) (self : NodeId) (peers : ℕ) (t : LockTable)
    → (can_enter r now self peers t).0 ≡ true
    → (own : LockRequest) × (rest : List LockRequest) × (live_queue now (queue_of r t) ≡ own ∷ rest)
      × (own.node_id ≡ self)
unfolding can_enter
winner r now self peers t entered = elim (Bool-cases (length (queue_of r t) == 0)) [
  | inl e ↦ absurd (ground arith)
  | inr e ↦
      let queue = (expire_heads r now self (queue_of r t) t.pending_acks).0 in
      let acks = (expire_heads r now self (queue_of r t) t.pending_acks).1 in
      let (own, rest, p, q, a) = head_of_may_enter r self peers queue acks (ground arith) in
      (own, rest, sym (expire_heads-live_queue r now self (queue_of r t) t.pending_acks) ∙ p, q)
]

-- Two nodes that are both let in at the same time, on tables whose queues for the resource agree,
-- are the same node.
pub can_enter_exclusive :
    (r : Bytes) (now : ℕ) (a b : NodeId) (peers_a peers_b : ℕ) (s t : LockTable)
    → queue_of r s ≡ queue_of r t
    → (can_enter r now a peers_a s).0 ≡ true
    → (can_enter r now b peers_b t).0 ≡ true
    → a ≡ b
can_enter_exclusive r now a b peers_a peers_b s t same ya yb =
    let (x, xs, p, pa) = winner r now a peers_a s ya in
    let (y, ys, q, pb) = winner r now b peers_b t yb in cc (ap (live_queue now) same)
