-- ===== src/Election.antt =====
-- backend/dfs/election/bully.go: the election of a master by priority.
--
-- A channel of one place is `none` while it is nil, else whether it holds a value. `StartElection`
-- and `becomeLeader` are cut where they wait: what follows a wait is a step of its own. The node is
-- the `NodeCommunicator`.
pub mod Candidates
pub mod Demotion
pub mod Lower
pub mod Coordinator
use distributed_file_system.Prelude.{
  ℕ, ◌*◌, ◌-◌, Bool, true, false, not, ◌&&◌, List, [], ◌∷◌, Option, none, some, ltb, if◌then◌else◌,
  ◌==◌, nat_eq,
}
use distributed_file_system.Prelude.Int.{ℤ, negsuc, lt_int, int_eq}
use distributed_file_system.Common.Types.{
  NodeId, nil_id, Uuid, second, NodeRole, master, storage, NodeInfo, election, election_ok,
  coordinator,
}
use distributed_file_system.Common.Messages.{
  Json, Message, Outgoing, send_to, no_payload, node_info_json,
}
use distributed_file_system.Node.{
  Node, is_master, get_peers, remove_peer, update_peer_role, get_node_info, broadcast_message,
  set_role,
}
use distributed_file_system.Node.Peers.{is_silent}

pub record BullyElector : Type 0 where
  pub election_in_progress : Bool
  pub ok_chan : Option Bool
  pub leader_cancel_chan : Option Bool
  pub coordinator_dead_chan : Option NodeId

unfoldable pub new_bully_elector : BullyElector
new_bully_elector = record {
  election_in_progress = false;
  ok_chan = none;
  leader_cancel_chan = none;
  coordinator_dead_chan = none;
}

-- A send that gives up when the channel is full, to a channel that may be nil.
abbrev pub offer : Option Bool → Option Bool
offer none = none
offer (some _) = some true

-- The peers of a higher priority.
unfoldable pub candidates : ℤ → List NodeInfo → List NodeInfo
candidates own [] = []
candidates own (peer ∷ peers) =
    if lt_int own peer.priority then peer ∷ candidates own peers else candidates own peers

unfoldable pub ask : Message → List NodeInfo → List Outgoing
ask msg [] = []
ask msg (peer ∷ peers) = send_to peer msg ∷ ask msg peers

abbrev pub coordinator_message : Node → Message
coordinator_message n = record {
  kind = coordinator;
  from = n.id;
  to = nil_id;
  payload = no_payload;
}

-- `becomeLeader` up to its wait.
unfoldable pub announce_leader : BullyElector → Node → BullyElector × List Outgoing
announce_leader b n =
    (record b { leader_cancel_chan = some false }, broadcast_message (coordinator_message n) n)

-- The rest of `becomeLeader`, after a cancellation or after the timeout.
unfoldable pub leader_cancelled : BullyElector → BullyElector
leader_cancelled b = record b { leader_cancel_chan = none }

unfoldable pub leader_confirmed : Uuid → BullyElector → Node → BullyElector × Node
leader_confirmed u b n = (record b { leader_cancel_chan = none }, set_role u master n)

-- How `StartElection` goes on: it is skipped, waits for an OK, or becomes the leader.
pub data Course : Type 0 where
  skipped waits leads : Course

-- `StartElection` up to its wait or up to `becomeLeader`.
unfoldable pub start_election : ℕ → BullyElector → Node → BullyElector × List Outgoing × Course
unfolding candidates ask
start_election now b n =
    if b.election_in_progress
    then (b, [], skipped)
    else elim (candidates n.priority (get_peers n)) [
      | [] ↦ (record b { election_in_progress = true; ok_chan = some false }, [], leads)
      | peer ∷ peers ↦ (
        record b { election_in_progress = true; ok_chan = some false },
        ask
            (record {
              kind = election;
              from = n.id;
              to = nil_id;
              payload = node_info_json (get_node_info now n);
            })
            (peer ∷ peers),
        waits,
      )
    ]

-- The end of `StartElection`, after its wait or at once.
unfoldable pub election_over : Course → BullyElector → BullyElector
election_over skipped b = b
election_over waits b = record b { election_in_progress = false; ok_chan = none }
election_over leads b = record b { election_in_progress = false }

-- `handleElection`: what is sent, and whether `StartElection` is called.
unfoldable pub handle_election : Json → Message → BullyElector → Node → List Outgoing × Bool
handle_election json msg b n = elim (json.node_info msg.payload) [
  | none ↦ ([], false)
  | some info ↦
      if lt_int info.priority n.priority
      then (
        send_to info (record { kind = election_ok; from = n.id; to = nil_id; payload = no_payload })
            ∷ [],
        not b.election_in_progress && not (is_master n.role),
      )
      else ([], false)
]

unfoldable pub handle_ok : Message → BullyElector → Node → BullyElector
handle_ok msg b n = if msg.from == n.id then b else record b { ok_chan = offer b.ok_chan }

-- The priority of the peer with the identifier, -1 if there is none.
unfoldable pub sender_priority : NodeId → List NodeInfo → ℤ
sender_priority id [] = negsuc 0
sender_priority id (peer ∷ peers) =
    if peer.id == id then peer.priority else sender_priority id peers

-- The loop that makes every other master a storage node again.
unfoldable pub demote_others : NodeId → List NodeInfo → Node → Node
demote_others from [] n = n
demote_others from (peer ∷ peers) n =
    demote_others from peers (
      if not (peer.id == from) && is_master peer.role
      then update_peer_role peer.id storage n
      else n)

-- A coordinator of a known, lower priority is not followed.
unfoldable pub is_lower : Message → Node → Bool
unfolding sender_priority
is_lower msg n =
    let p = sender_priority msg.from (get_peers n) in not (p == negsuc 0) && lt_int p n.priority

-- The node once the coordinator is followed.
unfoldable pub follow : Uuid → NodeId → Node → Node
unfolding demote_others
follow u from n =
    let n1 = update_peer_role from master n in
    let n2 = demote_others from (get_peers n1) n1 in
    if is_master n2.role then set_role u storage n2 else n2

unfoldable pub handle_coordinator :
    Uuid → Message → BullyElector → Node → BullyElector × Node × List Outgoing
unfolding is_lower follow
handle_coordinator u msg b n =
    if is_lower msg n
    then (b, n, if is_master n.role then broadcast_message (coordinator_message n) n else [])
    else (
      record b {
        election_in_progress = false;
        leader_cancel_chan = offer b.leader_cancel_chan;
        ok_chan = offer b.ok_chan;
      },
      follow u msg.from n,
      [],
    )

unfoldable pub notify_coordinator_dead : NodeId → BullyElector → BullyElector
notify_coordinator_dead id b = elim b.coordinator_dead_chan [
  | none ↦ record b { coordinator_dead_chan = some id }
  | some _ ↦ b
]

-- The search of `monitorLeader` for a master that is silent.
unfoldable pub find_dead_master : ℕ → List NodeInfo → Option NodeId
find_dead_master now [] = none
find_dead_master now (peer ∷ peers) =
    if is_master peer.role && is_silent now peer then some peer.id else find_dead_master now peers

-- A tick of `monitorLeader`, up to the call of `StartElection` that the last component tells.
unfoldable pub check_leader : ℕ → Node → Node × Bool
unfolding find_dead_master
check_leader now n = elim (find_dead_master now (get_peers n)) [
  | none ↦ (n, false)
  | some id ↦ (remove_peer id n, true)
]

-- `monitorLeader` on a notice of a dead coordinator, up to its call of `StartElection`.
unfoldable pub coordinator_dead : BullyElector → Node → BullyElector × Node
coordinator_dead b n = elim b.coordinator_dead_chan [
  | none ↦ (b, n)
  | some id ↦ (record b { coordinator_dead_chan = none }, remove_peer id n)
]
