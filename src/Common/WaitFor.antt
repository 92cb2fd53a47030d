-- ===== src/Common/WaitFor.antt =====
-- backend/dfs/common/waitfor-graph.go: the search for a cycle in the wait-for graph.
--
-- `range` visits the keys in the order of the list. The recursion of `dfs` is on fuel, and
-- `has_cycle` gives it one unit for each key of the graph; `none` would mean that it ran out.
pub mod Walks
mod Search
pub mod Correct
use distributed_file_system.Prelude.{
  ℕ, zero, suc, Bool, true, false, List, [], ◌∷◌, ◌++◌, Option, none, some, length, if◌then◌else◌,
  ◌==◌, nat_eq,
}
use distributed_file_system.Prelude.Map.{Map, lookup, insert, keys}
use distributed_file_system.Common.Types.{NodeId, GraphNodeStatus, not_visited, visiting, visited}

abbrev pub Graph : Type 0
Graph = Map NodeId (Map NodeId Bool)

abbrev pub Statuses : Type 0
Statuses = Map NodeId GraphNodeStatus

-- `range graph[node]`: a missing key has the nil map, which has no keys.
unfoldable pub successors : Graph → NodeId → List NodeId
successors g n = elim (lookup n g) [ none ↦ [] | some m ↦ keys m ]

-- `(true, path)`, or `(false, nil)` with the statuses as they are left.
pub data Result : Type 0 where
  cycle : List NodeId → Result
  clear : Statuses → Result
  out_of_fuel : Result

abbrev pub and_then : Result → (Statuses → Result) → Result
and_then (cycle p) k = cycle p
and_then (clear s) k = k s
and_then out_of_fuel k = out_of_fuel

-- The loop of `dfs` over the edges; `visit` is the recursive call.
pub scan :
    (NodeId → Statuses → List NodeId → Result) → List NodeId → Statuses → List NodeId → Result
scan visit [] s path = clear s
scan visit (e ∷ es) s path = elim (lookup e s) [
  | none ↦ scan visit es s path
  | some st ↦ elim st [
    | visiting ↦ cycle (path ++ e ∷ [])
    | not_visited ↦ and_then (visit e s path) (λ s'. scan visit es s' path)
    | visited ↦ scan visit es s path
  ]
]

module _ (g : Graph) where
  pub dfs : ℕ → NodeId → Statuses → List NodeId → Result
  unfolding scan
  dfs zero n s path = out_of_fuel
  dfs (suc fuel) n s path =
      and_then (scan (dfs fuel) (successors g n) (insert n visiting s) (path ++ n ∷ []))
        (λ s'. clear (insert n visited s'))

  -- The loop of `HasCycle` over the nodes.
  pub search : ℕ → List NodeId → Statuses → Result
  search fuel [] s = clear s
  search fuel (n ∷ ns) s = elim (lookup n s) [
    | none ↦ search fuel ns s
    | some st ↦ elim st [
      | not_visited ↦ and_then (dfs fuel n s []) (λ s'. search fuel ns s')
      | visiting ↦ search fuel ns s
      | visited ↦ search fuel ns s
    ]
  ]

pub initial : List NodeId → Statuses
initial [] = []
initial (n ∷ ns) = insert n not_visited (initial ns)

abbrev pub report : Result → Option (Bool × List NodeId)
report (cycle p) = some (true, p)
report (clear s) = some (false, [])
report out_of_fuel = none

unfoldable pub has_cycle : Graph → Option (Bool × List NodeId)
unfolding search dfs initial successors
has_cycle g =
    if length g == 0
    then some (false, [])
    else report (search g (length g) (keys g) (initial (keys g)))
