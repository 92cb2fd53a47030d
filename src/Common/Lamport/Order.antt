-- ===== src/Common/Lamport/Order.antt =====
-- The order of backend/dfs/common/lamport.go is a strict total order.
use distributed_file_system.Prelude.{◌≡◌, refl, ◌↔◌, true, false, [], ◌∷◌, Bytes, arith}
use distributed_file_system.Prelude.Int.{ℤ, pos, negsuc}
use distributed_file_system.Prelude.Sort.{IsWeakOrder}
use distributed_file_system.Common.Types.{NodeId, Uuid, LockRequest}
use distributed_file_system.Common.Lamport.{
  string_lt, compare_lamport, less_lamport, compare_lock_requests,
}

pub string_lt_asym : (a b : Bytes) → string_lt a b ≡ true → string_lt b a ≡ false
unfolding string_lt
string_lt_asym [] [] h = refl
string_lt_asym [] (y ∷ ys) h = refl
string_lt_asym (x ∷ xs) [] h = cc
string_lt_asym (x ∷ xs) (y ∷ ys) h = ground (arith, string_lt_asym xs ys)

pub string_lt_total : (a b : Bytes) → string_lt a b ≡ false → string_lt b a ≡ false → a ≡ b
unfolding string_lt
string_lt_total [] [] h k = refl
string_lt_total [] (y ∷ ys) h k = cc
string_lt_total (x ∷ xs) [] h k = cc
string_lt_total (x ∷ xs) (y ∷ ys) h k = ground (arith, string_lt_total xs ys)

pub string_lt_trans :
    (a b c : Bytes) → string_lt a b ≡ true → string_lt b c ≡ true → string_lt a c ≡ true
unfolding string_lt
string_lt_trans [] [] c h k = cc
string_lt_trans [] (y ∷ ys) [] h k = cc
string_lt_trans [] (y ∷ ys) (z ∷ zs) h k = refl
string_lt_trans (x ∷ xs) [] c h k = cc
string_lt_trans (x ∷ xs) (y ∷ ys) [] h k = cc
string_lt_trans (x ∷ xs) (y ∷ ys) (z ∷ zs) h k = ground (arith, string_lt_trans xs ys zs)

string_lt_irrefl : (a : Bytes) → string_lt a a ≡ false
unfolding string_lt
string_lt_irrefl [] = refl
string_lt_irrefl (x ∷ xs) = ground (arith, string_lt_irrefl xs)

module _ (u : Uuid) (t1 : ℤ) (id1 : NodeId) (t2 : ℤ) (id2 : NodeId) where
  -- The comparison gives 0 exactly at equal timestamps of the same node.
  pub compare_lamport-eq-zero :
      (compare_lamport u t1 id1 t2 id2 ≡ pos 0) ↔ ((t1 ≡ t2) × (id1 ≡ id2))
  unfolding compare_lamport
  compare_lamport-eq-zero = ground (
    arith,
    string_lt_total (u.string id1) (u.string id2),
    string_lt_irrefl (u.string id1),
    u.string_injective id1 id2,
  )

  -- Swapping the arguments negates the result.
  pub compare_lamport_antisym :
      (compare_lamport u t1 id1 t2 id2 ≡ negsuc 0) ↔ (compare_lamport u t2 id2 t1 id1 ≡ pos 1)
  unfolding compare_lamport
  compare_lamport_antisym = ground (
    arith,
    string_lt_asym (u.string id1) (u.string id2),
    string_lt_asym (u.string id2) (u.string id1),
  )

module _ (u : Uuid) where
  pub less_lamport_trans :
      (t1 : ℤ) (id1 : NodeId) (t2 : ℤ) (id2 : NodeId) (t3 : ℤ) (id3 : NodeId)
      → less_lamport u t1 id1 t2 id2 ≡ true
      → less_lamport u t2 id2 t3 id3 ≡ true
      → less_lamport u t1 id1 t3 id3 ≡ true
  unfolding less_lamport
  less_lamport_trans t1 id1 t2 id2 t3 id3 h k =
      ground (arith, string_lt_trans (u.string id1) (u.string id2) (u.string id3))

  -- The order of the lock queues is the order of the timestamps.
  compare_lock_requests-less_lamport :
      (a b : LockRequest)
      → compare_lock_requests u a b
        ≡ less_lamport u a.logical_time a.node_id b.logical_time b.node_id
  unfolding compare_lock_requests less_lamport
  compare_lock_requests-less_lamport a b = ground arith

string_ge_trans :
    (a b c : Bytes) → string_lt b a ≡ false → string_lt c b ≡ false → string_lt c a ≡ false
unfolding string_lt
string_ge_trans [] [] [] h k = refl
string_ge_trans [] [] (z ∷ zs) h k = refl
string_ge_trans [] (y ∷ ys) [] h k = cc
string_ge_trans [] (y ∷ ys) (z ∷ zs) h k = refl
string_ge_trans (x ∷ xs) [] c h k = cc
string_ge_trans (x ∷ xs) (y ∷ ys) [] h k = cc
string_ge_trans (x ∷ xs) (y ∷ ys) (z ∷ zs) h k = ground (arith, string_ge_trans xs ys zs)

module _ (u : Uuid) where
  lock_requests_asym :
      (a b : LockRequest) → compare_lock_requests u a b ≡ true → compare_lock_requests u b a ≡ false
  unfolding compare_lock_requests
  lock_requests_asym a b h =
      ground (arith, string_lt_asym (u.string a.node_id) (u.string b.node_id))

  lock_requests_trans :
      (a b c : LockRequest)
      → compare_lock_requests u b a ≡ false
      → compare_lock_requests u c b ≡ false
      → compare_lock_requests u c a ≡ false
  unfolding compare_lock_requests
  lock_requests_trans a b c h k =
      ground (arith, string_ge_trans (u.string a.node_id) (u.string b.node_id) (u.string c.node_id))

  -- The order of the lock queues is one that `sort` may be given.
  pub compare_lock_requests-IsWeakOrder : IsWeakOrder (compare_lock_requests u)
  compare_lock_requests-IsWeakOrder = record {
    asym = lock_requests_asym;
    trans = lock_requests_trans;
  }
