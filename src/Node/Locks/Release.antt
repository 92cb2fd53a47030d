-- ===== src/Node/Locks/Release.antt =====
-- What a release takes out of the table (backend/dfs/node/node.go: handleLockRelease, ReleaseLock,
-- handleLockAbort).
use mathlib.Core.List.{Perm}
use mathlib.Core.List.Perm
use distributed_file_system.Prelude.{
  ℕ, zero, suc, ◌≡◌, ◌≢◌, ◌++◌, All, refl, sym, ap, ◌∙◌, subst, nat_beq_iff, false, List, [], ◌∷◌,
  none, Bytes, if◌then◌else◌, ◌==◌, nat_eq, bytes_eq, bytes_beq_iff, Bool-cases, Option-cases, inl,
  inr, ◌⊎◌, arith, In, head, tail,
}
use distributed_file_system.Prelude.Map.{
  Map, lookup, delete, lookup-insert, lookup-delete, IsMap, keys,
}
use distributed_file_system.Common.Types.{NodeId, Uuid, LockRequest}
use distributed_file_system.Common.WaitFor.{Graph}
use distributed_file_system.Node.Locks.{
  LockTable, or_empty, queue_of, lock_requested, lock_released, remove_first, remove_request,
  drop_waits, release_own, release_all, lock_aborted, resources_of, has_request_of,
}

lookup-drop_waits :
    (id waiter : NodeId) (g : Graph)
    → or_empty (lookup waiter (drop_waits id g)) ≡ delete id (or_empty (lookup waiter g))
unfolding drop_waits lookup delete
lookup-drop_waits id waiter [] = refl
lookup-drop_waits id waiter ((w, held) ∷ g) = elim (Bool-cases (w == waiter)) [
  | inl e ↦ rw (e, lookup)
  | inr e ↦ rw (e, lookup) (lookup-drop_waits id waiter g)
]

-- After a release nobody waits for the sender, and every other wait is as before.
waits-lock_released :
    (r : Bytes) (from waiter held : NodeId) (t : LockTable)
    → lookup held (or_empty (lookup waiter (lock_released r from t).wait_for))
      ≡ (if from == held then none else lookup held (or_empty (lookup waiter t.wait_for)))
unfolding lock_released
waits-lock_released r from waiter held t =
    rw (lookup-drop_waits from waiter t.wait_for) (lookup-delete from held _)

-- A node's first request.
data Removes (id : NodeId) (queue : List LockRequest) : List LockRequest → Type 0 where
  absent : has_request_of id queue ≡ false → Removes id queue queue
  removed :
      {queue' : List LockRequest} (req : LockRequest)
      → req.node_id ≡ id
      → Perm queue (req ∷ queue')
      → Removes id queue queue'

remove_first-Removes :
    (id : NodeId) (queue : List LockRequest) → Removes id queue (remove_first id queue)
unfolding remove_first has_request_of
remove_first-Removes id [] = absent refl
remove_first-Removes id (req ∷ queue) = elim (Bool-cases (req.node_id == id)) [
  | inl e ↦ rw (e, remove_first) (removed req (ground arith) (Perm.refl (req ∷ queue)))
  | inr e ↦ rw (e, remove_first) (under (remove_first id queue) (remove_first-Removes id queue) e)
]
  where
    under :
        (queue' : List LockRequest)
        → Removes id queue queue'
        → (req.node_id == id) ≡ false
        → Removes id (req ∷ queue) (req ∷ queue')
    under queue' (absent h) e = absent (ground arith)
    under queue' (removed r same p) e =
        removed r same (Perm.trans (Perm.cons req p) (Perm.swap r req queue'))

remove_first_absent :
    (id : NodeId) (queue : List LockRequest)
    → has_request_of id queue ≡ false
    → remove_first id queue ≡ queue
unfolding remove_first has_request_of
remove_first_absent id [] h = refl
remove_first_absent id (req ∷ queue) h = ground (arith, remove_first_absent id queue)

remove_first-nil : (id : NodeId) → remove_first id [] ≡ []
unfolding remove_first
remove_first-nil id = refl

queue-remove_request :
    (r k : Bytes) (id : NodeId) (qs : Map Bytes (List LockRequest))
    → or_empty (lookup k (remove_request r id qs))
      ≡ (if r == k then remove_first id (or_empty (lookup k qs)) else or_empty (lookup k qs))
unfolding remove_request
queue-remove_request r k id qs = elim (Option-cases (lookup r qs)) [
  | inl e ↦ rw (e, remove_request) (ground (arith, bytes_beq_iff r k, remove_first-nil id))
  | inr (queue, e) ↦
      rw (e, remove_request)
        (ground (arith, bytes_beq_iff r k, lookup-insert r k (remove_first id queue) qs))
]

-- A release takes the sender's first request out of the queue of the resource and leaves all other
-- queues alone; a sender without a request changes no queue.
queue-lock_released :
    (r k : Bytes) (from : NodeId) (t : LockTable)
    → Removes from (queue_of r t) (queue_of r (lock_released r from t))
      × ((r ≡ k) ⊎ (queue_of k (lock_released r from t) ≡ queue_of k t))
unfolding lock_released
queue-lock_released r k from t = (
  subst (Removes from (queue_of r t))
      (ground (arith, queue-remove_request r r from t.queues, bytes_beq_iff r r))
      (remove_first-Removes from (queue_of r t)),
  elim (Bool-cases (r == k)) [
    | inl e ↦ inl ((bytes_beq_iff r k).0 e)
    | inr e ↦ inr (rw (queue-remove_request r k from t.queues, e))
  ],
)

-- The holder of a resource is forgotten by a release from any node, also one that does not hold it:
-- a request that comes next records no wait, so the deadlock search does not see it.
pub stray_release_hides_wait :
    (u : Uuid) (from : NodeId) (req : LockRequest) (t : LockTable)
    → (lookup req.resource_id (lock_released req.resource_id from t).holders ≡ none)
      × ((lock_requested u req (lock_released req.resource_id from t)).wait_for
          ≡ drop_waits from t.wait_for)
unfolding lock_released lock_requested
stray_release_hides_wait u from req t =
    let gone : lookup req.resource_id (delete req.resource_id t.holders) ≡ none = ground (
      arith,
      lookup-delete req.resource_id req.resource_id t.holders,
      bytes_beq_iff req.resource_id req.resource_id,
    ) in
    (gone, rw (gone, lock_requested))

-- A queue, and what is left of it without the first request of a node.
pub data WithoutFirst (id : NodeId) (queue : List LockRequest) : List LockRequest → Type 0 where
  none_there : All (λ req. req.node_id ≢ id) queue → WithoutFirst id queue queue
  first_gone :
      (before : List LockRequest) (req : LockRequest) (after : List LockRequest)
      → queue ≡ before ++ req ∷ after
      → All (λ q. q.node_id ≢ id) before
      → req.node_id ≡ id
      → WithoutFirst id queue (before ++ after)

WithoutFirst-cons :
    (id : NodeId) (req : LockRequest) (queue queue' : List LockRequest)
    → req.node_id ≢ id
    → WithoutFirst id queue queue'
    → WithoutFirst id (req ∷ queue) (req ∷ queue')
WithoutFirst-cons id req queue _ ne (none_there a) = none_there (ne, a)
WithoutFirst-cons id req queue _ ne (first_gone before r after e a same) =
    first_gone (req ∷ before) r after (ap (λ q. req ∷ q) e) (ne, a) same

remove_first-WithoutFirst :
    (id : NodeId) (queue : List LockRequest) → WithoutFirst id queue (remove_first id queue)
unfolding remove_first
remove_first-WithoutFirst id [] = none_there tt
remove_first-WithoutFirst id (req ∷ queue) = elim (Bool-cases (req.node_id == id)) [
  | inl e ↦
      rw (e, remove_first) (first_gone [] req queue refl tt ((nat_beq_iff req.node_id id).0 e))
  | inr e ↦
      rw (e, remove_first)
        (WithoutFirst-cons id req queue (remove_first id queue) (ground (arith, e))
          (remove_first-WithoutFirst id queue))
]

times : Bytes → List Bytes → ℕ
times k [] = 0
times k (r ∷ rs) = if r == k then suc (times k rs) else times k rs

queue-release_own :
    (r k : Bytes) (self : NodeId) (t : LockTable)
    → queue_of k (release_own r self t)
      ≡ (if r == k then remove_first self (queue_of k t) else queue_of k t)
unfolding release_own
queue-release_own r k self t = queue-remove_request r k self t.queues

-- A number of removals of a node's first request.
removed_times : ℕ → NodeId → List LockRequest → List LockRequest
removed_times zero id queue = queue
removed_times (suc n) id queue = removed_times n id (remove_first id queue)

queue-release_all :
    (self : NodeId) (rs : List Bytes) (k : Bytes) (t : LockTable)
    → queue_of k (release_all self rs t) ≡ removed_times (times k rs) self (queue_of k t)
unfolding release_all times removed_times
queue-release_all self [] k t = refl
queue-release_all self (r ∷ rs) k t = elim (Bool-cases (r == k)) [
  | inl e ↦
      queue-release_all self rs k (release_own r self t)
      ∙ rw (e, times)
          (ap (removed_times (times k rs) self) (queue-release_own r k self t ∙ rw e refl))
  | inr e ↦
      queue-release_all self rs k (release_own r self t)
      ∙ rw (e, times)
          (ap (removed_times (times k rs) self) (queue-release_own r k self t ∙ rw e refl))
]

times-resources_of_missing :
    (self : NodeId) (k : Bytes) (qs : Map Bytes (List LockRequest))
    → ¬ In k (keys qs)
    → times k (resources_of self qs) ≡ 0
unfolding resources_of times
times-resources_of_missing self k [] h = refl
times-resources_of_missing self k ((r, queue) ∷ qs) h = ground (
  arith,
  times-resources_of_missing self k qs (λ i. h (tail i)),
  λ (e : k ≡ r). h (head e),
  bytes_beq_iff r k,
)

times-resources_of :
    (self : NodeId) (k : Bytes) (qs : Map Bytes (List LockRequest))
    → IsMap qs
    → times k (resources_of self qs)
      ≡ (if has_request_of self (or_empty (lookup k qs)) then 1 else 0)
unfolding resources_of times lookup has_request_of
times-resources_of self k [] d = refl
times-resources_of self k ((r, queue) ∷ qs) d = elim (Bool-cases (r == k)) [
  | inl e ↦
      let miss =
        times-resources_of_missing self k qs
          (subst (λ z. ¬ In z (keys qs)) ((bytes_beq_iff r k).0 e) d.0) in
      ground (arith, e, miss)
  | inr e ↦ ground (arith, e, times-resources_of self k qs d.1)
]

removed_once :
    (id : NodeId) (queue : List LockRequest)
    → removed_times (if has_request_of id queue then 1 else 0) id queue ≡ remove_first id queue
unfolding removed_times
removed_once id queue = elim (Bool-cases (has_request_of id queue)) [
  | inl e ↦ rw e refl
  | inr e ↦ rw e (sym (remove_first_absent id queue e))
]

-- If no resource stands twice in the table, an abort takes the node's first request out of every
-- queue that has one: what stands before it and after it stays, in order, and a queue without a
-- request of the node stays as it is.
pub queue-lock_aborted :
    (self : NodeId) (k : Bytes) (t : LockTable)
    → IsMap t.queues
    → WithoutFirst self (queue_of k t) (queue_of k (lock_aborted self t).0)
unfolding lock_aborted
queue-lock_aborted self k t d =
    subst (WithoutFirst self (queue_of k t))
      (sym (
        queue-release_all self (resources_of self t.queues) k t
        ∙ ap (λ n. removed_times n self (queue_of k t)) (times-resources_of self k t.queues d)
        ∙ removed_once self (queue_of k t)))
      (remove_first-WithoutFirst self (queue_of k t))
