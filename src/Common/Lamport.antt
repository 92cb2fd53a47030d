-- ===== src/Common/Lamport.antt =====
-- backend/dfs/common/lamport.go: the order of Lamport timestamps, ties broken by the node's text.
pub mod Order
use distributed_file_system.Prelude.{
  ℕ, Bool, true, false, List, [], ◌∷◌, Bytes, ltb, if◌then◌else◌, not, ◌==◌,
}
use distributed_file_system.Prelude.Int.{ℤ, pos, negsuc, lt_int, int_eq}
use distributed_file_system.Common.Messages.{MessageWithTime}
use distributed_file_system.Common.Types.{NodeId, Uuid, LockRequest}

-- Go's `<` on strings.
unfoldable pub string_lt : Bytes → Bytes → Bool
string_lt [] [] = false
string_lt [] (y ∷ ys) = true
string_lt (x ∷ xs) [] = false
string_lt (x ∷ xs) (y ∷ ys) = if ltb x y then true else if ltb y x then false else string_lt xs ys

module _ (u : Uuid) where
  unfoldable pub compare_lamport : ℤ → NodeId → ℤ → NodeId → ℤ
  compare_lamport t1 id1 t2 id2 =
      if lt_int t1 t2
      then negsuc 0
      else if lt_int t2 t1
      then pos 1
      else if string_lt (u.string id1) (u.string id2)
      then negsuc 0
      else if string_lt (u.string id2) (u.string id1)
      then pos 1
      else pos 0

  unfoldable pub less_lamport : ℤ → NodeId → ℤ → NodeId → Bool
  unfolding compare_lamport
  less_lamport t1 id1 t2 id2 = compare_lamport t1 id1 t2 id2 == negsuc 0

  unfoldable pub compare_lock_requests : LockRequest → LockRequest → Bool
  compare_lock_requests a b =
      if not (a.logical_time == b.logical_time)
      then lt_int a.logical_time b.logical_time
      else string_lt (u.string a.node_id) (u.string b.node_id)

  unfoldable pub compare_message_lamport : MessageWithTime → MessageWithTime → ℤ
  compare_message_lamport a b =
      compare_lamport a.logical_time a.message.from b.logical_time b.message.from
