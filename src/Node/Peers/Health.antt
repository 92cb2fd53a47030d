-- ===== src/Node/Peers/Health.antt =====
-- The peers that `checkPeersHealth` of backend/dfs/node/node.go gives up.
use distributed_file_system.Prelude.{
  ℕ, ◌≡◌, ap, true, [], ◌∷◌, Bool-cases, inl, inr, In, head, tail, nat_eq,
}
use distributed_file_system.Prelude.Map.{Map, lookup, IsMap, unless, lookup-prune, In-cons}
use distributed_file_system.Common.Types.{NodeId, NodeInfo}
use distributed_file_system.Node.{Node, is_master}
use distributed_file_system.Node.Peers.{is_silent, dead_coordinators, check_peers_health}

In-dead_coordinators :
    (now : ℕ) (id : NodeId) (m : Map NodeId NodeInfo)
    → In id (dead_coordinators now m)
    → (p : NodeInfo) × In (id, p) m × (is_silent now p ≡ true) × (is_master p.role ≡ true)
unfolding dead_coordinators
In-dead_coordinators now id [] i = elim i [ ]
In-dead_coordinators now id ((j, q) ∷ m) i = elim (Bool-cases (is_silent now q)) [
  | inl e ↦ elim (Bool-cases (is_master q.role)) [
    | inl is_m ↦ elim (In-cons (rw (e, is_m, dead_coordinators) at i)) [
      | inl same ↦ (q, head (ap (λ z. (z, q)) same), e, is_m)
      | inr k ↦ further (In-dead_coordinators now id m k)
    ]
    | inr not_m ↦ further (In-dead_coordinators now id m (rw (e, not_m, dead_coordinators) at i))
  ]
  | inr e ↦ further (In-dead_coordinators now id m (rw (e, dead_coordinators) at i))
]
  where
    further :
        ((p : NodeInfo) × In (id, p) m × (is_silent now p ≡ true) × (is_master p.role ≡ true))
        → (p : NodeInfo) × In (id, p) ((j, q) ∷ m)
          × (is_silent now p ≡ true)
          × (is_master p.role ≡ true)
    further (p, k, silent, is_m) = (p, tail k, silent, is_m)

-- If no peer is noted twice, then a check keeps exactly the peers that were heard of in the last
-- fifteen seconds, as they are; and each coordinator of which the elector is notified is a peer
-- that was a master and is given up.
check_peers_health-Keeps :
    (now : ℕ) (n : Node)
    → IsMap n.peers
    → let r = check_peers_health now n in
      ((k : NodeId) → lookup k r.0.peers ≡ unless (λ _ p. is_silent now p) k (lookup k n.peers))
      × ((id : NodeId)
          → In id r.1
          → (p : NodeInfo) × In (id, p) n.peers
            × (is_silent now p ≡ true)
            × (is_master p.role ≡ true))
unfolding check_peers_health
check_peers_health-Keeps now n d = (
  λ k. lookup-prune (λ _ p. is_silent now p) k n.peers d,
  λ id i. In-dead_coordinators now id n.peers i,
)
