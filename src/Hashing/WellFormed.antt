-- ===== src/Hashing/WellFormed.antt =====
-- The invariant of the ring of backend/dfs/hashing/hash.go, kept by each of its methods.
use distributed_file_system.Prelude.{
  ℕ, zero, suc, ◌+◌, ◌≡◌, refl, List, [], ◌∷◌, none, some, arith, ltb, All, ◌==◌, nat_eq,
  nat_beq_iff, Bool-cases, Option-cases, inl, inr,
}
use distributed_file_system.Prelude.Int.{ℤ}
use distributed_file_system.Prelude.Sort.{IsSorted, IsWeakOrder, sort_stable-IsSorted}
use distributed_file_system.Prelude.Map.{Map, lookup, insert, delete, lookup-insert, lookup-delete}
use distributed_file_system.Common.Types.{NodeId, NodeInfo, Uuid}
use distributed_file_system.Hashing.{
  HashRing, new_hash_ring, owner, remove_points, remove_node, add_points, add_node,
}

-- The positions are sorted, and each registered node is stored under its own identifier.
pub record IsWellFormed (h : HashRing) : Type 0 where
  pub sorted : IsSorted ltb h.ring
  pub keyed : (id : NodeId) (node : NodeInfo) → lookup id h.nodes ≡ some node → node.id ≡ id

ltb-IsWeakOrder : IsWeakOrder ltb
ltb-IsWeakOrder = record { asym = λ a b h. ground arith; trans = λ a b c h k. ground arith }

-- A new ring is well formed.
pub new_hash_ring-IsWellFormed : (v : ℤ) → IsWellFormed (new_hash_ring v)
unfolding new_hash_ring lookup
new_hash_ring-IsWellFormed v = record { sorted = tt; keyed = λ id node h. cc }

pub nodes-add_points :
    (u : Uuid) (id : NodeId) (k i : ℕ) (h : HashRing) → (add_points u id k i h).nodes ≡ h.nodes
unfolding add_points
nodes-add_points u id zero i h = refl
nodes-add_points u id (suc k) i h = nodes-add_points u id k (i + 1) _

pub nodes-add_node :
    (u : Uuid) (h : HashRing) (node : NodeInfo)
    → lookup node.id h.nodes ≡ none
    → (add_node u h node).nodes ≡ insert node.id node h.nodes
unfolding add_node
nodes-add_node u h node e =
    rw (e, add_node)
      (nodes-add_points u node.id h.virtual_nodes 0
        (record h { nodes = insert node.id node h.nodes }))

-- `AddNode` keeps the ring well formed.
pub add_node-IsWellFormed :
    (u : Uuid) (h : HashRing) (node : NodeInfo) → IsWellFormed h → IsWellFormed (add_node u h node)
unfolding add_node
add_node-IsWellFormed u h node w = elim (Option-cases (lookup node.id h.nodes)) [
  | inr (old, e) ↦ rw (e, add_node) w
  | inl e ↦
      rw (e, add_node)
        (record {
          sorted = sort_stable-IsSorted ltb ltb-IsWeakOrder _;
          keyed = λ id nd p. keyed_insert id nd (rw (nodes-add_points u) at p);
        })
]
  where
    keyed_insert :
        (id : NodeId) (nd : NodeInfo)
        → lookup id (insert node.id node h.nodes) ≡ some nd
        → nd.id ≡ id
    keyed_insert id nd p = ground (arith, lookup-insert node.id id node h.nodes, w.keyed id nd)

All-remove_points {ℓ} :
    (P : ℕ → Type ℓ) (id : NodeId) (ring : List ℕ) (m : Map ℕ NodeId)
    → All P ring
    → All P (remove_points id ring m).0
unfolding remove_points
All-remove_points P id [] m a = tt
All-remove_points P id (hash ∷ ring) m a = elim (Bool-cases (owner m hash == id)) [
  | inl e ↦ rw (e, remove_points) (All-remove_points P id ring (delete hash m) a.1)
  | inr e ↦ rw (e, remove_points) (a.0, All-remove_points P id ring m a.1)
]

remove_points-IsSorted :
    (id : NodeId) (ring : List ℕ) (m : Map ℕ NodeId)
    → IsSorted ltb ring
    → IsSorted ltb (remove_points id ring m).0
unfolding remove_points
remove_points-IsSorted id [] m s = tt
remove_points-IsSorted id (hash ∷ ring) m s = elim (Bool-cases (owner m hash == id)) [
  | inl e ↦ rw (e, remove_points) (remove_points-IsSorted id ring (delete hash m) s.1)
  | inr e ↦
      rw (e, remove_points)
        (All-remove_points _ id ring m s.0, remove_points-IsSorted id ring m s.1)
]

-- `RemoveNode` keeps the ring well formed.
remove_node-IsWellFormed :
    (h : HashRing) (id : NodeId) → IsWellFormed h → IsWellFormed (remove_node h id)
unfolding remove_node
remove_node-IsWellFormed h id w = elim (Option-cases (lookup id h.nodes)) [
  | inl e ↦ rw (e, remove_node) w
  | inr (old, e) ↦
      rw (e, remove_node)
        (record {
          sorted = remove_points-IsSorted id h.ring h.node_map w.sorted;
          keyed = λ k nd p. ground (arith, lookup-delete id k h.nodes, w.keyed k nd);
        })
]

-- After `RemoveNode` the node is not registered, and every other node is as before.
pub lookup-nodes-remove_node :
    (h : HashRing) (id k : NodeId)
    → lookup k (remove_node h id).nodes ≡ lookup k (delete id h.nodes)
unfolding remove_node
lookup-nodes-remove_node h id k = elim (Option-cases (lookup id h.nodes)) [
  | inl e ↦ rw (e, remove_node) (ground (arith, lookup-delete id k h.nodes, nat_beq_iff id k))
  | inr (old, e) ↦ rw (e, remove_node)
]
