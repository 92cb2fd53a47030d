-- ===== src/Election/Coordinator.antt =====
-- What a coordinator message does to a node: `handleCoordinator` of backend/dfs/election/bully.go.
use distributed_file_system.Prelude.{
  ◌≡◌, ◌↔◌, refl, false, [], some, Bool-cases, inl, inr, if◌then◌else◌, nat_eq,
}
use distributed_file_system.Prelude.Map.{lookup, IsMap}
use distributed_file_system.Prelude.Int.{int_eq}
use distributed_file_system.Common.Types.{NodeId, master, storage, NodeInfo, Uuid}
use distributed_file_system.Common.Messages.{Message}
use distributed_file_system.Node.{Node, is_master, broadcast_message}
use distributed_file_system.Election.{
  BullyElector, coordinator_message, is_lower, handle_coordinator,
}
use distributed_file_system.Election.Demotion.{IsKeyed, follow-one_master}
use distributed_file_system.Election.Lower.{IsLower, is_lower-IsLower}

-- On a node whose peers are a map and stand under their own identifiers: the message of a
-- coordinator that is a peer of a lower priority, other than -1, leaves elector and node as they
-- are, and a master answers it with its own claim to all its peers. After any other message the
-- node is a storage node, exactly the sender is a master among its peers, if it is one of them, no
-- election is in progress, and nothing is sent.
pub handle_coordinator-one_master :
    (u : Uuid) (msg : Message) (b : BullyElector) (n : Node)
    → IsMap n.peers
    → IsKeyed n
    → let r = handle_coordinator u msg b n in
      (IsLower msg n
        → (r.0 ≡ b)
          × (r.1 ≡ n)
          × (r.2 ≡ (if is_master n.role then broadcast_message (coordinator_message n) n else [])))
      × (¬ IsLower msg n
          → (r.0.election_in_progress ≡ false)
            × (r.1.role ≡ storage)
            × ((j : NodeId) (p : NodeInfo)
                → lookup j r.1.peers ≡ some p
                → (p.role ≡ master) ↔ (j ≡ msg.from))
            × (r.2 ≡ []))
unfolding handle_coordinator
handle_coordinator-one_master u msg b n d k = (
  λ l. rw ((is_lower-IsLower msg n d k).1 l, handle_coordinator) (refl, refl, refl),
  λ nl. elim (Bool-cases (is_lower msg n)) [
    | inl e ↦ absurd (nl ((is_lower-IsLower msg n d k).0 e))
    | inr e ↦
        rw (e, handle_coordinator)
          (refl, (follow-one_master u msg.from n k).0, (follow-one_master u msg.from n k).1, refl)
  ],
)
