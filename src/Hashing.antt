-- ===== src/Hashing.antt =====
-- backend/dfs/hashing/hash.go: the ring of virtual nodes that places files on storage nodes.
--
-- The mutex makes each method one step. A missing key of `nodeMap` reads as `uuid.Nil`.
mod Placement
pub mod WellFormed
pub mod Lookup
use distributed_file_system.Prelude.{
  ℕ, zero, suc, ◌+◌, ◌%◌, Bool, true, false, not, List, [], ◌∷◌, ◌++◌, Option, none, some, Bytes,
  length, get_or, ltb, leb, if◌then◌else◌, ◌==◌, nat_eq,
}
use distributed_file_system.Prelude.Int.{ℤ, pos, pos_part, lt_int}
use distributed_file_system.Prelude.Sort.{sort_stable}
use distributed_file_system.Prelude.BinarySearch.{sort_search}
use distributed_file_system.Prelude.Crc.{checksum_ieee, decimal}
use distributed_file_system.Prelude.Map.{Map, lookup, insert, delete, values}
use distributed_file_system.Common.Types.{NodeId, nil_id, NodeInfo, Uuid}

abbrev pub default_virtual_nodes : ℕ
default_virtual_nodes = 150

pub record HashRing : Type 0 where
  pub ring : List ℕ
  pub node_map : Map ℕ NodeId
  pub nodes : Map NodeId NodeInfo
  pub virtual_nodes : ℕ

unfoldable pub new_hash_ring : ℤ → HashRing
new_hash_ring v = record {
  ring = [];
  node_map = [];
  nodes = [];
  virtual_nodes = if lt_int (pos 0) v then pos_part v else default_virtual_nodes;
}

unfoldable pub hash_key : Bytes → ℕ
hash_key key = checksum_ieee key

-- `h.nodeMap[hash]`
unfoldable pub owner : Map ℕ NodeId → ℕ → NodeId
owner m hash = elim (lookup hash m) [ none ↦ nil_id | some id ↦ id ]

-- One pass of the loop of `RemoveNode` over the ring: the new ring and the new `nodeMap`.
unfoldable pub remove_points : NodeId → List ℕ → Map ℕ NodeId → List ℕ × Map ℕ NodeId
unfolding owner
remove_points id [] m = ([], m)
remove_points id (hash ∷ ring) m = elim (owner m hash == id) [
  | true ↦ remove_points id ring (delete hash m)
  | false ↦ let (ring', m') = remove_points id ring m in (hash ∷ ring', m')
]

unfoldable pub remove_node : HashRing → NodeId → HashRing
remove_node h id = elim (lookup id h.nodes) [
  | none ↦ h
  | some _ ↦
      let (ring', m') = remove_points id h.ring h.node_map in
      record h { ring = ring'; node_map = m'; nodes = delete id h.nodes }
]

-- One round of the search: a node that was not seen yet is noted, and taken if it is registered.
unfoldable pub visit_position :
    HashRing → NodeId → Map NodeId Bool × List NodeInfo → Map NodeId Bool × List NodeInfo
visit_position h id (seen, result) = elim (lookup id seen) [
  | some _ ↦ (seen, result)
  | none ↦ (
    insert id true seen,
    elim (lookup id h.nodes) [ none ↦ result | some node ↦ result ++ node ∷ [] ],
  )
]

unfoldable pub find_loop :
    HashRing → ℕ → ℕ → ℕ → ℕ → Map NodeId Bool × List NodeInfo → List NodeInfo
unfolding owner
find_loop h idx n zero i s = s.1
find_loop h idx n (suc rounds) i s = elim (ltb (length s.1) n) [
  | false ↦ s.1
  | true ↦
      find_loop h idx n rounds (i + 1)
        (visit_position h (owner h.node_map (get_or h.ring ((idx + i) % length h.ring) 0)) s)
]

-- The start of the search: the first position at or after the hash, around the end.
unfoldable pub start_index : List ℕ → ℕ → ℕ
start_index ring hash =
    let idx = sort_search (length ring) (λ i. leb hash (get_or ring i 0)) in
    if idx == length ring then 0 else idx

unfoldable pub find_from : HashRing → ℕ → ℕ → List NodeInfo
find_from h hash n = find_loop h (start_index h.ring hash) n (length h.ring) 0 ([], [])

module _ (u : Uuid) where
  unfoldable pub generate_virtual_node_key : NodeId → ℕ → Bytes
  generate_virtual_node_key id i = u.string id ++ b'#' ∷ decimal i

  -- The loop of `AddNode`: `k` points are left, the next has number `i`.
  unfoldable pub add_points : NodeId → ℕ → ℕ → HashRing → HashRing
  add_points id zero i h = h
  add_points id (suc k) i h =
      let hash = hash_key (generate_virtual_node_key id i) in
      add_points id k (i + 1)
        (record h { ring = h.ring ++ hash ∷ []; node_map = insert hash id h.node_map })

  unfoldable pub add_node : HashRing → NodeInfo → HashRing
  unfolding add_points
  add_node h node = elim (lookup node.id h.nodes) [
    | some _ ↦ h
    | none ↦
        let h' =
          add_points node.id h.virtual_nodes 0 (record h { nodes = insert node.id node h.nodes }) in
        record h' { ring = sort_stable ltb h'.ring }
  ]

  unfoldable pub find_nodes_for_file : HashRing → NodeId → ℕ → List NodeInfo
  find_nodes_for_file h file n =
      if length h.ring == 0 then [] else find_from h (hash_key (u.string file)) n

unfoldable pub get_node_count : HashRing → ℕ
get_node_count h = length h.nodes

unfoldable pub get_all_nodes : HashRing → List NodeInfo
get_all_nodes h = values h.nodes
