-- ===== src/Node/Locks.antt =====
-- The distributed lock of backend/dfs/node/node.go: the state under `lockQueueMutex` and
-- `waitForGraphMutex`, and the part of each method that works on it.
--
-- Each critical section is one step. `self` is the node's own identifier, `now` the time of the
-- call. A missing queue is empty, as the nil slice is.
pub mod Queues
pub mod Entry
pub mod Timeouts
pub mod Release
pub mod Deadlock
use distributed_file_system.Prelude.{
  ℕ, zero, suc, ◌-◌, ◌^◌, Bool, true, false, not, List, [], ◌∷◌, ◌++◌, Option, none, some, Bytes,
  length, ltb, leb, if◌then◌else◌, ◌==◌, nat_eq, bytes_eq,
}
use distributed_file_system.Prelude.Int.{ℤ, pos, lt_int}
use distributed_file_system.Prelude.Sort.{sort_stable}
use distributed_file_system.Prelude.Map.{Map, lookup, insert, delete}
use distributed_file_system.Common.Types.{
  NodeId, NodeInfo, Uuid, nil_id, LockRequest, pending, lock_timeout,
}
use distributed_file_system.Common.Lamport.{compare_lock_requests}
use distributed_file_system.Common.WaitFor.{Graph}

pub record LockTable : Type 0 where
  pub queues : Map Bytes (List LockRequest)
  pub pending_acks : Map Bytes (Map NodeId Bool)
  pub holders : Map Bytes NodeId
  pub wait_for : Graph

-- A read of a map whose values are slices or maps: nil if the key is missing.
abbrev pub or_empty {ℓ} : {A : Type ℓ} → Option (List A) → List A
or_empty none = []
or_empty (some xs) = xs

abbrev pub queue_of : Bytes → LockTable → List LockRequest
queue_of r t = or_empty (lookup r t.queues)

-- `append`, then `sort.SliceStable` by `CompareLockRequests`.
unfoldable pub enqueue : Uuid → LockRequest → LockTable → LockTable
enqueue u req t =
    let queue = sort_stable (compare_lock_requests u) (queue_of req.resource_id t ++ req ∷ []) in
    record t { queues = insert req.resource_id queue t.queues }

-- `waitForGraph[waiter][holder] = true`
unfoldable pub add_wait : NodeId → NodeId → Graph → Graph
add_wait waiter holder g = insert waiter (insert holder true (or_empty (lookup waiter g))) g

-- The locked part of `handleLockRequest`.
unfoldable pub lock_requested : Uuid → LockRequest → LockTable → LockTable
unfolding enqueue add_wait
lock_requested u req t =
    let t' = enqueue u req t in
    elim (lookup req.resource_id t'.holders) [
      | none ↦ t'
      | some holder ↦
          if not (holder == req.node_id)
          then record t' { wait_for = add_wait req.node_id holder t'.wait_for }
          else t'
    ]

-- The locked part of `handleLockAck`.
unfoldable pub lock_acked : Bytes → NodeId → LockTable → LockTable
lock_acked r from t = record t {
  pending_acks = insert r (insert from true (or_empty (lookup r t.pending_acks))) t.pending_acks;
}

-- The locked part of `handleLockAcquired`.
unfoldable pub lock_acquired : Bytes → NodeId → LockTable → LockTable
lock_acquired r from t = record t { holders = insert r from t.holders }

-- The loop that takes the first request of a node out of a queue.
unfoldable pub remove_first : NodeId → List LockRequest → List LockRequest
remove_first id [] = []
remove_first id (req ∷ queue) = if req.node_id == id then queue else req ∷ remove_first id queue

-- The queues, with the first request of the node for the resource gone.
unfoldable pub remove_request :
    Bytes → NodeId → Map Bytes (List LockRequest) → Map Bytes (List LockRequest)
unfolding remove_first
remove_request r id qs = elim (lookup r qs) [
  | none ↦ qs
  | some queue ↦ insert r (remove_first id queue) qs
]

-- Nobody waits for the node any more.
unfoldable pub drop_waits : NodeId → Graph → Graph
drop_waits id [] = []
drop_waits id ((waiter, held) ∷ g) = (waiter, delete id held) ∷ drop_waits id g

-- `handleLockRelease`, which forgets the holder of the resource whoever sends the message.
unfoldable pub lock_released : Bytes → NodeId → LockTable → LockTable
unfolding remove_request drop_waits
lock_released r from t = record t {
  queues = remove_request r from t.queues;
  holders = delete r t.holders;
  wait_for = drop_waits from t.wait_for;
}

-- The locked part of `RequestLock`.
unfoldable pub request_own : Uuid → LockRequest → LockTable → LockTable
unfolding enqueue
request_own u req t =
    let t' = enqueue u req t in
    record t' { pending_acks = insert req.resource_id [] t'.pending_acks }

-- The locked part of `ReleaseLock`.
unfoldable pub release_own : Bytes → NodeId → LockTable → LockTable
unfolding remove_request
release_own r self t = record t {
  queues = remove_request r self t.queues;
  pending_acks = delete r t.pending_acks;
}

-- `time.Since(req.RequestedAt) > LOCK_TIMEOUT`
unfoldable pub is_timed_out : ℕ → LockRequest → Bool
is_timed_out now req = ltb lock_timeout (now - req.requested_at)

-- The loop of `CanEnterCriticalSection`: the timed out requests at the head are dropped.
unfoldable pub expire_heads :
    Bytes
    → ℕ
    → NodeId
    → List LockRequest
    → Map Bytes (Map NodeId Bool)
    → List LockRequest × Map Bytes (Map NodeId Bool)
unfolding is_timed_out
expire_heads r now self [] acks = ([], acks)
expire_heads r now self (first ∷ queue) acks =
    if not (is_timed_out now first)
    then (first ∷ queue, acks)
    else expire_heads r now self queue (if first.node_id == self then delete r acks else acks)

unfoldable pub count_acked : Map NodeId Bool → ℕ
count_acked [] = 0
count_acked ((id, acked) ∷ acks) = if acked then suc (count_acked acks) else count_acked acks

-- The tests of `CanEnterCriticalSection` after the loop.
unfoldable pub may_enter :
    Bytes → NodeId → ℕ → List LockRequest → Map Bytes (Map NodeId Bool) → Bool
unfolding count_acked
may_enter r self peers [] acks = false
may_enter r self peers (first ∷ queue) acks =
    if not (first.node_id == self)
    then false
    else if peers == 0
    then true
    else leb peers (count_acked (or_empty (lookup r acks)))

-- `CanEnterCriticalSection`, for a node with that many peers.
unfoldable pub can_enter : Bytes → ℕ → NodeId → ℕ → LockTable → Bool × LockTable
unfolding expire_heads may_enter
can_enter r now self peers t =
    if length (queue_of r t) == 0
    then (false, t)
    else let (queue, acks) = expire_heads r now self (queue_of r t) t.pending_acks in
      (
        may_enter r self peers queue acks,
        record t { queues = insert r queue t.queues; pending_acks = acks },
      )

-- The inner loop of `checkLocksTimeouts`: the requests that stay, and how many of the node's own
-- requests do not.
unfoldable pub keep_live : ℕ → NodeId → List LockRequest → List LockRequest × ℕ
unfolding is_timed_out
keep_live now self [] = ([], 0)
keep_live now self (req ∷ queue) =
    let (kept, own) = keep_live now self queue in
    if is_timed_out now req
    then (kept, if req.node_id == self then suc own else own)
    else (req ∷ kept, own)

unfoldable pub repeat {ℓ} : {A : Type ℓ} → ℕ → A → List A → List A
repeat zero a rest = rest
repeat (suc n) a rest = a ∷ repeat n a rest

-- The outer loop: the new queues, the acks that stay, and a release for each own request that timed
-- out.
unfoldable pub timeout_queues :
    ℕ
    → NodeId
    → Map Bytes (List LockRequest)
    → Map Bytes (Map NodeId Bool)
    → Map Bytes (List LockRequest) × Map Bytes (Map NodeId Bool) × List Bytes
unfolding keep_live repeat
timeout_queues now self [] acks = ([], acks, [])
timeout_queues now self ((r, queue) ∷ qs) acks =
    let (kept, own) = keep_live now self queue in
    let (qs', acks', rs) = timeout_queues now self qs (if own == 0 then acks else delete r acks) in
    ((r, kept) ∷ qs', acks', repeat own r rs)

-- `checkLocksTimeouts`, with the resources for which a release is broadcast.
unfoldable pub check_locks_timeouts : ℕ → NodeId → LockTable → LockTable × List Bytes
unfolding timeout_queues
check_locks_timeouts now self t =
    let (qs, acks, rs) = timeout_queues now self t.queues t.pending_acks in
    (record t { queues = qs; pending_acks = acks }, rs)

unfoldable pub has_request_of : NodeId → List LockRequest → Bool
has_request_of id [] = false
has_request_of id (req ∷ queue) = if req.node_id == id then true else has_request_of id queue

-- The resources that `handleLockAbort` releases.
unfoldable pub resources_of : NodeId → Map Bytes (List LockRequest) → List Bytes
unfolding has_request_of
resources_of id [] = []
resources_of id ((r, queue) ∷ qs) =
    if has_request_of id queue then r ∷ resources_of id qs else resources_of id qs

unfoldable pub release_all : NodeId → List Bytes → LockTable → LockTable
unfolding release_own
release_all self [] t = t
release_all self (r ∷ rs) t = release_all self rs (release_own r self t)

unfoldable pub lock_aborted : NodeId → LockTable → LockTable × List Bytes
unfolding release_all resources_of
lock_aborted self t = let rs = resources_of self t.queues in (release_all self rs t, rs)

-- The priority by which `selectVictim` judges a node of the cycle.
unfoldable pub priority_of : NodeId → ℤ → Map NodeId NodeInfo → NodeId → Option ℤ
priority_of self own peers id =
    if id == self
    then some own
    else elim (lookup id peers) [ none ↦ none | some peer ↦ some peer.priority ]

unfoldable pub victim_loop : (NodeId → Option ℤ) → List NodeId → NodeId × ℤ → NodeId × ℤ
victim_loop priority [] best = best
victim_loop priority (id ∷ path) (victim, lowest) = elim (priority id) [
  | none ↦ victim_loop priority path (victim, lowest)
  | some p ↦ victim_loop priority path (if lt_int p lowest then (id, p) else (victim, lowest))
]

-- `int(^uint(0) >> 1)`
abbrev pub max_priority : ℤ
max_priority = pos (2 ^ 63 - 1)

unfoldable pub select_victim : NodeId → ℤ → Map NodeId NodeInfo → List NodeId → NodeId
unfolding priority_of victim_loop
select_victim self own peers path =
    (victim_loop (priority_of self own peers) path (nil_id, max_priority)).0

-- What may happen to the table: a message, a call, or a tick of a monitor.
pub data Event : Type 0 where
  request_received : LockRequest → Event
  ack_received acquired_received release_received : Bytes → NodeId → Event
  abort_received : Event
  request_made : LockRequest → Event
  release_made : Bytes → Event
  entry_tried : Bytes → ℕ → ℕ → Event
  timeouts_checked : ℕ → Event

unfoldable pub step : Uuid → NodeId → Event → LockTable → LockTable
step u self (request_received req) t = lock_requested u req t
step u self (ack_received r from) t = lock_acked r from t
step u self (acquired_received r from) t = lock_acquired r from t
step u self (release_received r from) t = lock_released r from t
step u self abort_received t = (lock_aborted self t).0
step u self (request_made req) t = request_own u req t
step u self (release_made r) t = release_own r self t
step u self (entry_tried r now peers) t = (can_enter r now self peers t).1
step u self (timeouts_checked now) t = (check_locks_timeouts now self t).0

unfoldable pub run : Uuid → NodeId → List Event → LockTable → LockTable
unfolding step
run u self [] t = t
run u self (e ∷ es) t = run u self es (step u self e t)

abbrev pub empty_table : LockTable
empty_table = record { queues = []; pending_acks = []; holders = []; wait_for = [] }
