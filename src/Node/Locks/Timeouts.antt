-- ===== src/Node/Locks/Timeouts.antt =====
-- What `checkLocksTimeouts` of backend/dfs/node/node.go drops, keeps and releases.
use distributed_file_system.Prelude.{
  ℕ, zero, suc, ◌≡◌, refl, subst, Bool, true, false, List, [], ◌∷◌, Bytes, ◌==◌, nat_eq, bytes_eq,
  bytes_beq_iff, Bool-cases, inl, inr, ◌↔◌, arith, In, head, tail,
}
use distributed_file_system.Prelude.Map.{Map, lookup, In-cons}
use distributed_file_system.Common.Types.{NodeId, LockRequest}
use distributed_file_system.Node.Locks.{
  LockTable, or_empty, queue_of, is_timed_out, keep_live, repeat, timeout_queues,
  check_locks_timeouts,
}
use distributed_file_system.Node.Locks.Queues.{lookup-timeout_queues}

In-keep_live :
    (now : ℕ) (self : NodeId) (req : LockRequest) (queue : List LockRequest)
    → In req (keep_live now self queue).0 ↔ (In req queue × (is_timed_out now req ≡ false))
unfolding keep_live
In-keep_live now self req [] = ((λ i. elim i [ ]), (λ h. elim h.0 [ ]))
In-keep_live now self req (x ∷ queue) = elim (Bool-cases (is_timed_out now x)) [
  | inl e ↦
      rw (e, keep_live)
        (
          λ i. let (j, live) = (In-keep_live now self req queue).0 i in (tail j, live),
          λ h. elim (In-cons h.0) [
            | inl same ↦ absurd (ground arith)
            | inr j ↦ (In-keep_live now self req queue).1 (j, h.1)
          ],
        )
  | inr e ↦
      rw (e, keep_live)
        (
          λ i. elim (In-cons i) [
            | inl same ↦ (head same, simp same e)
            | inr j ↦ let (k, live) = (In-keep_live now self req queue).0 j in (tail k, live)
          ],
          λ h. elim (In-cons h.0) [
            | inl same ↦ head same
            | inr j ↦ tail ((In-keep_live now self req queue).1 (j, h.1))
          ],
        )
]

-- After the check a queue holds exactly the requests it held that have not timed out.
queue-check_locks_timeouts :
    (now : ℕ) (self : NodeId) (t : LockTable) (r : Bytes) (req : LockRequest)
    → In req (queue_of r (check_locks_timeouts now self t).0)
      ↔ (In req (queue_of r t) × (is_timed_out now req ≡ false))
unfolding check_locks_timeouts
queue-check_locks_timeouts now self t r req =
    rw (lookup-timeout_queues now self t.queues t.pending_acks r)
      (In-keep_live now self req (queue_of r t))

own_timed_out :
    (now : ℕ) (self : NodeId) (req : LockRequest) (queue : List LockRequest)
    → In req queue
    → req.node_id ≡ self
    → is_timed_out now req ≡ true
    → ((keep_live now self queue).1 == 0) ≡ false
unfolding keep_live
own_timed_out now self req [] i own out = elim i [ ]
own_timed_out now self req (x ∷ queue) i own out = elim (In-cons i) [
  | inl same ↦ ground arith
  | inr j ↦ ground (arith, own_timed_out now self req queue j)
]

In-repeat : (n : ℕ) (r : Bytes) (rest : List Bytes) → (n == 0) ≡ false → In r (repeat n r rest)
unfolding repeat
In-repeat zero r rest h = cc
In-repeat (suc n) r rest h = head refl

In-repeat_rest : (n : ℕ) (r k : Bytes) (rest : List Bytes) → In k rest → In k (repeat n r rest)
unfolding repeat
In-repeat_rest zero r k rest i = i
In-repeat_rest (suc n) r k rest i = tail (In-repeat_rest n r k rest i)

released_timed_out :
    (now : ℕ) (self : NodeId) (req : LockRequest) (r : Bytes) (qs : Map Bytes (List LockRequest))
    (acks : Map Bytes (Map NodeId Bool))
    → In req (or_empty (lookup r qs))
    → req.node_id ≡ self
    → is_timed_out now req ≡ true
    → In r (timeout_queues now self qs acks).2
unfolding timeout_queues lookup
released_timed_out now self req r [] acks i own out = elim i [ ]
released_timed_out now self req r ((k, queue) ∷ qs) acks i own out = elim (Bool-cases (k == r)) [
  | inl e ↦
      subst (λ z. In z (timeout_queues now self ((k, queue) ∷ qs) acks).2) ((bytes_beq_iff k r).0 e)
        (In-repeat (keep_live now self queue).1 k _
          (own_timed_out now self req queue (rw (e, lookup) at i) own out))
  | inr e ↦
      In-repeat_rest _ k r _ (released_timed_out now self req r qs _ (rw (e, lookup) at i) own out)
]

-- For every request of the node itself in a queue that has timed out, a release of the resource is
-- broadcast.
released-check_locks_timeouts :
    (now : ℕ) (self : NodeId) (t : LockTable) (r : Bytes) (req : LockRequest)
    → In req (queue_of r t)
    → req.node_id ≡ self
    → is_timed_out now req ≡ true
    → In r (check_locks_timeouts now self t).1
unfolding check_locks_timeouts
released-check_locks_timeouts now self t r req i own out =
    released_timed_out now self req r t.queues t.pending_acks i own out
