-- ===== src/Examples/Rings.antt =====
-- Examples for the hash ring.
use distributed_file_system.Prelude.{◌≡◌, nat_eq, refl, length}
use distributed_file_system.Prelude.Int.{pos}
use distributed_file_system.Prelude.Map.{lookup, insert}
use distributed_file_system.Prelude.Sort.{sort_stable}
use distributed_file_system.Prelude.Crc.{checksum_ieee, decimal}
use distributed_file_system.Prelude.BinarySearch.{sort_search, search_between}
use distributed_file_system.Common.Types.{NodeInfo, storage}
use distributed_file_system.Hashing.{
  HashRing, new_hash_ring, add_node, find_nodes_for_file, hash_key, generate_virtual_node_key,
  find_from, find_loop, visit_position, start_index,
}
use distributed_file_system.Hashing.WellFormed.{
  IsWellFormed, new_hash_ring-IsWellFormed, add_node-IsWellFormed,
}
use distributed_file_system.Hashing.Lookup.{IsPlacement, find_nodes_for_file-IsPlacement}
use distributed_file_system.Examples.Fixtures.{uuid, peer}

abbrev first : NodeInfo
first = peer 2 storage 1

abbrev second_node : NodeInfo
second_node = peer 3 storage 1

abbrev one : HashRing
one = add_node uuid (new_hash_ring (pos 2)) first

abbrev two : HashRing
two = add_node uuid one second_node

-- Two nodes are found for a file, though three are asked for.
found_two : length (find_nodes_for_file uuid two 9 3) ≡ 2
unfolding find_nodes_for_file add_node new_hash_ring lookup insert sort_stable hash_key
    checksum_ieee generate_virtual_node_key decimal find_from find_loop visit_position start_index
    sort_search search_between
found_two = refl

one-IsWellFormed : IsWellFormed one
one-IsWellFormed =
    add_node-IsWellFormed uuid (new_hash_ring (pos 2)) first (new_hash_ring-IsWellFormed (pos 2))

two-IsWellFormed : IsWellFormed two
two-IsWellFormed = add_node-IsWellFormed uuid one second_node one-IsWellFormed

find_nodes_for_file-IsPlacement_example : IsPlacement two 3 (find_nodes_for_file uuid two 9 3)
find_nodes_for_file-IsPlacement_example =
    find_nodes_for_file-IsPlacement uuid two 9 3 two-IsWellFormed

four_points : length two.ring ≡ 4
unfolding add_node new_hash_ring lookup insert sort_stable hash_key checksum_ieee
    generate_virtual_node_key decimal
four_points = refl
