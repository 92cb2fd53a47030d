-- ===== src/Node/Locks/Queues.antt =====
-- Every queue of backend/dfs/node/node.go is ordered by the timestamps of its requests, whatever
-- messages and timeouts come in whatever order.
use distributed_file_system.Prelude.{
  ℕ, ◌≡◌, refl, sym, subst, Bool, List, [], ◌∷◌, Bytes, All, ◌==◌, nat_eq, bytes_eq, Bool-cases,
  Option-cases, inl, inr, length, arith,
}
use distributed_file_system.Prelude.Sort.{IsSorted, sort_stable-IsSorted}
use distributed_file_system.Prelude.Map.{Map, lookup, insert, lookup-insert}
use distributed_file_system.Common.Types.{NodeId, Uuid, LockRequest}
use distributed_file_system.Common.Lamport.{compare_lock_requests}
use distributed_file_system.Common.Lamport.Order.{compare_lock_requests-IsWeakOrder}
use distributed_file_system.Node.Locks.{
  LockTable, or_empty, queue_of, enqueue, lock_requested, lock_acked, lock_acquired, remove_first,
  remove_request, lock_released, request_own, release_own, is_timed_out, expire_heads, can_enter,
  keep_live, timeout_queues, check_locks_timeouts, release_all, lock_aborted, resources_of, Event,
  step, run, request_received, ack_received, acquired_received, release_received, abort_received,
  request_made, release_made, entry_tried, timeouts_checked,
}

-- A statement of every queue.
abbrev pub Each {ℓ} : (List LockRequest → Type ℓ) → Map Bytes (List LockRequest) → Type ℓ
Each P qs = (r : Bytes) → P (or_empty (lookup r qs))

pub Each-insert {ℓ} :
    (P : List LockRequest → Type ℓ) (r : Bytes) (queue : List LockRequest)
    (qs : Map Bytes (List LockRequest))
    → P queue
    → Each P qs
    → Each P (insert r queue qs)
Each-insert P r queue qs p ps k = elim (Bool-cases (r == k)) [
  | inl e ↦ rw (lookup-insert r k queue qs, e) p
  | inr e ↦ rw (lookup-insert r k queue qs, e) (ps k)
]

pub Each-remove_request {ℓ} :
    (P : List LockRequest → Type ℓ) (r : Bytes) (id : NodeId) (qs : Map Bytes (List LockRequest))
    → ((queue : List LockRequest) → P queue → P (remove_first id queue))
    → Each P qs
    → Each P (remove_request r id qs)
unfolding remove_request
Each-remove_request P r id qs keep ps k = elim (Option-cases (lookup r qs)) [
  | inl e ↦ rw (e, remove_request) (ps k)
  | inr (queue, e) ↦
      rw (e, remove_request)
        (Each-insert P r (remove_first id queue) qs (keep queue (rw e at (ps r))) ps k)
]

pub lookup-timeout_queues :
    (now : ℕ) (self : NodeId) (qs : Map Bytes (List LockRequest))
    (acks : Map Bytes (Map NodeId Bool)) (r : Bytes)
    → or_empty (lookup r (timeout_queues now self qs acks).0)
      ≡ (keep_live now self (or_empty (lookup r qs))).0
unfolding timeout_queues lookup keep_live
lookup-timeout_queues now self [] acks r = refl
lookup-timeout_queues now self ((k, queue) ∷ qs) acks r = elim (Bool-cases (k == r)) [
  | inl e ↦ rw (e, lookup)
  | inr e ↦ rw (e, lookup) (lookup-timeout_queues now self qs _ r)
]

module _ (u : Uuid) where
  abbrev IsOrdered : List LockRequest → Type 0
  IsOrdered = IsSorted (compare_lock_requests u)

  All-remove_first {ℓ} :
      (P : LockRequest → Type ℓ) (id : NodeId) (queue : List LockRequest)
      → All P queue
      → All P (remove_first id queue)
  unfolding remove_first
  All-remove_first P id [] a = tt
  All-remove_first P id (req ∷ queue) a = elim (Bool-cases (req.node_id == id)) [
    | inl e ↦ rw (e, remove_first) a.1
    | inr e ↦ rw (e, remove_first) (a.0, All-remove_first P id queue a.1)
  ]

  remove_first-IsOrdered :
      (id : NodeId) (queue : List LockRequest) → IsOrdered queue → IsOrdered (remove_first id queue)
  unfolding remove_first
  remove_first-IsOrdered id [] s = tt
  remove_first-IsOrdered id (req ∷ queue) s = elim (Bool-cases (req.node_id == id)) [
    | inl e ↦ rw (e, remove_first) s.1
    | inr e ↦
        rw (e, remove_first) (All-remove_first _ id queue s.0, remove_first-IsOrdered id queue s.1)
  ]

  All-keep_live {ℓ} :
      (P : LockRequest → Type ℓ) (now : ℕ) (self : NodeId) (queue : List LockRequest)
      → All P queue
      → All P (keep_live now self queue).0
  unfolding keep_live
  All-keep_live P now self [] a = tt
  All-keep_live P now self (req ∷ queue) a = elim (Bool-cases (is_timed_out now req)) [
    | inl e ↦ rw (e, keep_live) (All-keep_live P now self queue a.1)
    | inr e ↦ rw (e, keep_live) (a.0, All-keep_live P now self queue a.1)
  ]

  keep_live-IsOrdered :
      (now : ℕ) (self : NodeId) (queue : List LockRequest)
      → IsOrdered queue
      → IsOrdered (keep_live now self queue).0
  unfolding keep_live
  keep_live-IsOrdered now self [] s = tt
  keep_live-IsOrdered now self (req ∷ queue) s = elim (Bool-cases (is_timed_out now req)) [
    | inl e ↦ rw (e, keep_live) (keep_live-IsOrdered now self queue s.1)
    | inr e ↦
        rw (e, keep_live)
          (All-keep_live _ now self queue s.0, keep_live-IsOrdered now self queue s.1)
  ]

  pub expire_heads-IsOrdered :
      (r : Bytes) (now : ℕ) (self : NodeId) (queue : List LockRequest)
      (acks : Map Bytes (Map NodeId Bool))
      → IsOrdered queue
      → IsOrdered (expire_heads r now self queue acks).0
  unfolding expire_heads
  expire_heads-IsOrdered r now self [] acks s = tt
  expire_heads-IsOrdered r now self (first ∷ queue) acks s =
      elim (Bool-cases (is_timed_out now first)) [
        | inl e ↦ rw (e, expire_heads) (expire_heads-IsOrdered r now self queue _ s.1)
        | inr e ↦ rw (e, expire_heads) s
      ]

  abbrev pub QueuesOrdered : LockTable → Type 0
  QueuesOrdered t = Each IsOrdered t.queues

  enqueue-QueuesOrdered :
      (req : LockRequest) (t : LockTable) → QueuesOrdered t → QueuesOrdered (enqueue u req t)
  unfolding enqueue
  enqueue-QueuesOrdered req t o =
      Each-insert IsOrdered req.resource_id _ t.queues
        (sort_stable-IsSorted _ (compare_lock_requests-IsWeakOrder u) _) o

  queues-lock_requested :
      (req : LockRequest) (t : LockTable)
      → (lock_requested u req t).queues ≡ (enqueue u req t).queues
  unfolding lock_requested
  queues-lock_requested req t = ground arith

  lock_requested-QueuesOrdered :
      (req : LockRequest) (t : LockTable) → QueuesOrdered t → QueuesOrdered (lock_requested u req t)
  lock_requested-QueuesOrdered req t o =
      subst (Each IsOrdered) (sym (queues-lock_requested req t)) (enqueue-QueuesOrdered req t o)

  release_own-QueuesOrdered :
      (r : Bytes) (self : NodeId) (t : LockTable)
      → QueuesOrdered t
      → QueuesOrdered (release_own r self t)
  unfolding release_own
  release_own-QueuesOrdered r self t o =
      Each-remove_request IsOrdered r self t.queues (remove_first-IsOrdered self) o

  release_all-QueuesOrdered :
      (self : NodeId) (rs : List Bytes) (t : LockTable)
      → QueuesOrdered t
      → QueuesOrdered (release_all self rs t)
  unfolding release_all
  release_all-QueuesOrdered self [] t o = o
  release_all-QueuesOrdered self (r ∷ rs) t o =
      release_all-QueuesOrdered self rs (release_own r self t)
        (release_own-QueuesOrdered r self t o)

  can_enter-QueuesOrdered :
      (r : Bytes) (now : ℕ) (self : NodeId) (peers : ℕ) (t : LockTable)
      → QueuesOrdered t
      → QueuesOrdered (can_enter r now self peers t).1
  unfolding can_enter
  can_enter-QueuesOrdered r now self peers t o = elim (Bool-cases (length (queue_of r t) == 0)) [
    | inl e ↦ rw (e, can_enter) o
    | inr e ↦
        rw (e, can_enter)
          (Each-insert IsOrdered r _ t.queues
            (expire_heads-IsOrdered r now self (queue_of r t) t.pending_acks (o r)) o)
  ]

  check_locks_timeouts-QueuesOrdered :
      (now : ℕ) (self : NodeId) (t : LockTable)
      → QueuesOrdered t
      → QueuesOrdered (check_locks_timeouts now self t).0
  unfolding check_locks_timeouts
  check_locks_timeouts-QueuesOrdered now self t o r =
      rw (lookup-timeout_queues now self t.queues t.pending_acks r)
        (keep_live-IsOrdered now self (queue_of r t) (o r))

  pub step-QueuesOrdered :
      (self : NodeId) (e : Event) (t : LockTable)
      → QueuesOrdered t
      → QueuesOrdered (step u self e t)
  unfolding step lock_acked lock_acquired lock_released request_own lock_aborted
  step-QueuesOrdered self (request_received req) t o = lock_requested-QueuesOrdered req t o
  step-QueuesOrdered self (ack_received r from) t o = o
  step-QueuesOrdered self (acquired_received r from) t o = o
  step-QueuesOrdered self (release_received r from) t o =
      Each-remove_request IsOrdered r from t.queues (remove_first-IsOrdered from) o
  step-QueuesOrdered self abort_received t o =
      release_all-QueuesOrdered self (resources_of self t.queues) t o
  step-QueuesOrdered self (request_made req) t o = enqueue-QueuesOrdered req t o
  step-QueuesOrdered self (release_made r) t o = release_own-QueuesOrdered r self t o
  step-QueuesOrdered self (entry_tried r now peers) t o =
      can_enter-QueuesOrdered r now self peers t o
  step-QueuesOrdered self (timeouts_checked now) t o =
      check_locks_timeouts-QueuesOrdered now self t o

  -- From a table whose queues are in the order of the timestamps, every queue is in that order
  -- after any sequence of messages, calls and ticks: no request is less than one that stands
  -- before it.
  pub run-QueuesOrdered :
      (self : NodeId) (es : List Event) (t : LockTable)
      → QueuesOrdered t
      → QueuesOrdered (run u self es t)
  unfolding run
  run-QueuesOrdered self [] t o = o
  run-QueuesOrdered self (e ∷ es) t o =
      run-QueuesOrdered self es (step u self e t) (step-QueuesOrdered self e t o)
