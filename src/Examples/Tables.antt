-- ===== src/Examples/Tables.antt =====
-- Examples for the lock table.
use distributed_file_system.Prelude.{
  ℕ, ◌≡◌, refl, true, List, [], ◌∷◌, some, none, codes, bytes_eq, nat_eq, In, head, tail,
  Bool-cases, bytes_beq, arith, inl, inr,
}
use distributed_file_system.Prelude.Int.{pos}
use distributed_file_system.Prelude.Map.{Map, lookup, insert}
use distributed_file_system.Prelude.Sort.{sort_stable}
use distributed_file_system.Common.Types.{NodeId, NodeInfo, master, storage}
use distributed_file_system.Common.Lamport.{compare_lock_requests}
use distributed_file_system.Node.Locks.{
  LockTable, empty_table, Event, request_received, run, queue_of, or_empty, can_enter, is_timed_out,
  lock_released, lock_requested, drop_waits, lock_aborted, priority_of, select_victim,
}
use distributed_file_system.Node.Locks.Queues.{QueuesOrdered, run-QueuesOrdered}
use distributed_file_system.Node.Locks.Entry.{Enters, can_enter-Enters, can_enter_exclusive}
use distributed_file_system.Node.Locks.Release.{
  stray_release_hides_wait, WithoutFirst, queue-lock_aborted,
}
use distributed_file_system.Node.Locks.Deadlock.{IsVictim, select_victim-IsVictim}
use distributed_file_system.Examples.Fixtures.{uuid, request, peer}

empty-QueuesOrdered : QueuesOrdered uuid empty_table
unfolding lookup
empty-QueuesOrdered r = tt

-- The later request comes first.
abbrev events : List Event
events = request_received (request 2 5) ∷ request_received (request 1 3) ∷ []

run-QueuesOrdered_example : QueuesOrdered uuid (run uuid 1 events empty_table)
run-QueuesOrdered_example = run-QueuesOrdered uuid 1 events empty_table empty-QueuesOrdered

earlier_first :
    queue_of (codes "r") (run uuid 1 events empty_table) ≡ request 1 3 ∷ request 2 5 ∷ []
unfolding run lookup insert sort_stable compare_lock_requests lock_requested
earlier_first = refl

-- Node 1 has asked before node 2, and both have acknowledged.
abbrev table : LockTable
table = record {
  queues = (codes "r", request 1 3 ∷ request 2 5 ∷ []) ∷ [];
  pending_acks = (codes "r", (2, true) ∷ []) ∷ [];
  holders = (codes "r", 1) ∷ [];
  wait_for = (2, (1, true) ∷ []) ∷ [];
}

table-QueuesOrdered : QueuesOrdered uuid table
unfolding lookup compare_lock_requests
table-QueuesOrdered r = elim (Bool-cases (bytes_beq (codes "r") r)) [
  | inl e ↦ rw (e, or_empty) ((refl, tt), (tt, tt))
  | inr e ↦ rw (e, or_empty) tt
]

let_in : (can_enter (codes "r") 0 1 1 table).0 ≡ true
unfolding can_enter lookup
let_in = refl

can_enter-Enters_example : Enters uuid (codes "r") 0 1 1 (can_enter (codes "r") 0 1 1 table).1
can_enter-Enters_example = can_enter-Enters uuid (codes "r") 0 1 1 table table-QueuesOrdered let_in

abbrev table_node : NodeId
table_node = 1

can_enter_exclusive_example : table_node ≡ 1
can_enter_exclusive_example =
    can_enter_exclusive (codes "r") 0 table_node 1 1 1 table table refl let_in let_in

-- 40 seconds.
abbrev late : ℕ
late = 40000000000

first_queued : In (request 1 3) (queue_of (codes "r") table)
unfolding lookup
first_queued = head refl

timed_out : is_timed_out late (request 1 3) ≡ true
unfolding is_timed_out
timed_out = refl

-- Node 3, which does not hold the resource, releases it.
stray_release_hides_wait_example :
    (lookup (codes "r") (lock_released (codes "r") 3 table).holders ≡ none)
    × ((lock_requested uuid (request 4 9) (lock_released (codes "r") 3 table)).wait_for
        ≡ drop_waits 3 table.wait_for)
stray_release_hides_wait_example = stray_release_hides_wait uuid 3 (request 4 9) table

queue-lock_aborted_example :
    WithoutFirst 1 (queue_of (codes "r") table) (queue_of (codes "r") (lock_aborted 1 table).0)
queue-lock_aborted_example = queue-lock_aborted 1 (codes "r") table ((λ i. elim i [ ]), tt)

abbrev peers : Map NodeId NodeInfo
peers = (2, peer 2 master 3) ∷ (3, peer 3 storage 9) ∷ []

priority_known : priority_of 1 (pos 5) peers 2 ≡ some (pos 3)
unfolding priority_of lookup
priority_known = refl

select_victim-IsVictim_example :
    IsVictim
      (priority_of 1 (pos 5) peers)
      (1 ∷ 2 ∷ 1 ∷ [])
      (select_victim 1 (pos 5) peers (1 ∷ 2 ∷ 1 ∷ []))
select_victim-IsVictim_example =
    select_victim-IsVictim 1 (pos 5) peers (1 ∷ 2 ∷ 1 ∷ []) 2 (pos 3) (tail (head refl))
      priority_known (omega arith)
