-- ===== src/Examples/Nodes.antt =====
-- Examples for the node and the election.
use distributed_file_system.Prelude.{
  if◌then◌else◌, Bool, ℕ, ◌≡◌, ◌↔◌, ◌⊎◌, refl, sym, ap, ◌∙◌, zero, suc, nat_beq, true, false, [],
  ◌∷◌, Option, some, none, codes, bytes_eq, nat_eq, nat_beq_iff, In, arith, inl, inr, Bool-cases,
  none_not_some,
}
use distributed_file_system.Prelude.Int.{pos, ◌<ℤ◌}
use distributed_file_system.Prelude.Map.{lookup, IsMap, In-cons}
use distributed_file_system.Common.Types.{
  StreamSession, StreamStoreAck, NodeId, NodeInfo, NodeFileMetadata, master, storage, coordinator,
  replicate_file, file_store, ReplicateFileRequest,
}
use distributed_file_system.Common.Messages.{
  Json, Message, Outgoing, no_payload, file_store_json, replicate_file_json,
}
use distributed_file_system.Election.{
  new_bully_elector, start_election, handle_coordinator, coordinator_message,
}
use distributed_file_system.Election.Candidates.{StartsElection, start_election-StartsElection}
use distributed_file_system.Election.Demotion.{IsKeyed}
use distributed_file_system.Election.Lower.{IsLower}
use distributed_file_system.Election.Coordinator.{handle_coordinator-one_master}
use distributed_file_system.Node.{
  Node, is_master, broadcast_message, update_logical_time, increment_logical_time,
}
use distributed_file_system.Node.Peers.{Attempt, no_connection, delivered, send_message}
use distributed_file_system.Node.Peers.Clock.{send-receive_later}
use distributed_file_system.Node.Files.{merge_files, done}
use distributed_file_system.Node.Files.Replicas.{replicas_of, In-merge_files}
use distributed_file_system.Node.Streams.{ack_received}
use distributed_file_system.Node.Streams.Acks.{Acknowledges, ack_received-Acknowledges}
use distributed_file_system.Examples.Fixtures.{uuid, node, server}
use distributed_file_system.Examples.Files.{hash, full}

node-IsMap : IsMap node.peers
node-IsMap = (
  (λ i. elim (In-cons i) [ inl e ↦ omega (arith, e) | inr j ↦ elim j [ ] ]),
  ((λ i. elim i [ ]), tt),
)

start_election-StartsElection_example :
    StartsElection 0 new_bully_elector node (start_election 0 new_bully_elector node)
start_election-StartsElection_example = start_election-StartsElection 0 new_bully_elector node

node-IsKeyed : IsKeyed node
unfolding lookup
node-IsKeyed k p h = elim (Bool-cases (nat_beq 2 k)) [
  | inl e ↦ ap id_of (sym (rw e at h)) ∙ (nat_beq_iff 2 k).0 e
  | inr e ↦ elim (Bool-cases (nat_beq 3 k)) [
    | inl f ↦ ap id_of (sym (rw (e, f) at h)) ∙ (nat_beq_iff 3 k).0 f
    | inr f ↦ absurd (none_not_some (rw (e, f) at h))
  ]
]
  where
    id_of : Option NodeInfo → NodeId
    id_of none = 0
    id_of (some q) = q.id

abbrev news : NodeId → Message
news id = record { kind = coordinator; from = id; to = 0; payload = no_payload }

handle_coordinator-one_master_example :
    let r = handle_coordinator uuid (news 3) new_bully_elector node in
    (IsLower (news 3) node
      → (r.0 ≡ new_bully_elector)
        × (r.1 ≡ node)
        × (r.2 ≡ (
            if is_master node.role then broadcast_message (coordinator_message node) node else [])))
    × (¬ IsLower (news 3) node
        → (r.0.election_in_progress ≡ false)
          × (r.1.role ≡ storage)
          × ((j : NodeId) (p : NodeInfo)
              → lookup j r.1.peers ≡ some p
              → (p.role ≡ master) ↔ (j ≡ 3))
          × (r.2 ≡ []))
handle_coordinator-one_master_example =
    handle_coordinator-one_master uuid (news 3) new_bully_elector node node-IsMap node-IsKeyed

-- The first attempt finds no connection.
abbrev net : ℕ → Attempt
net zero = no_connection
net (suc i) = delivered

message_delivered :
    (send_message net (news 1) node).1 ≡ some (record { message = news 1; logical_time = pos 5 })
unfolding send_message increment_logical_time
message_delivered = refl

send-receive_later_example :
    (pos 4 <ℤ pos 5)
    × (pos 4 <ℤ (update_logical_time (pos 5) node).1)
    × (pos 4 <ℤ (update_logical_time (pos 5) node).1)
send-receive_later_example =
    send-receive_later net (news 1) node node (record { message = news 1; logical_time = pos 5 })
      (omega arith) (omega arith) message_delivered

abbrev file : NodeFileMetadata
file = record {
  file_id = 7;
  filename = codes "f";
  hash = codes "h";
  size = 1;
  content_type = codes "t";
}

abbrev two : NodeId
two = 2

In-merge_files_example : In 2 (replicas_of (lookup (codes "h") (merge_files 2 (file ∷ []) []))) ↔ (
    In 2 (replicas_of (lookup (codes "h") []))
    ⊎ ((two ≡ 2) × ((f : NodeFileMetadata) × In f (file ∷ []) × (f.hash ≡ codes "h"))))
In-merge_files_example = In-merge_files 2 2 (codes "h") (file ∷ []) []

-- A node that has the file and is asked to send it to node 3.
abbrev source : Node
source = record node { server = record server { storage = full } }

abbrev order : ReplicateFileRequest
order = record {
  file_id = 7;
  filename = codes "f";
  hash = hash;
  source_node = 1;
  target_nodes = 3 ∷ [];
}

abbrev json : Json
json = record {
  node_info = λ p. none;
  node_infos = λ p. none;
  lock_request = λ p. none;
  string = λ p. none;
  metadata_request = λ p. none;
  metadata_response = λ p. none;
  replicate_file = λ p. some order;
  store_ack = λ p. none;
  session_data = λ p. none;
  upload_init = λ p. none;
  upload_ready = λ p. none;
  download_init = λ p. none;
  download_ready = λ p. none;
  api_delete = λ p. none;
  api_delete_response = λ p. none;
  request_id = λ p. [];
}

abbrev replicate : Message
replicate = record { kind = replicate_file; from = 2; to = 1; payload = replicate_file_json order }

abbrev store : Outgoing
store = record {
  ip = codes "ip";
  port = 9000;
  message = record {
    kind = file_store;
    from = 1;
    to = 0;
    payload = file_store_json (record {
      file_id = 7;
      filename = codes "f";
      content_type = codes "t";
      size = 1;
      data_bytes = 5 ∷ [];
    });
  };
}

-- A master that waits for two nodes.
abbrev upload : StreamSession
upload = record {
  session_id = codes "s";
  file_id = 7;
  filename = codes "f";
  content_type = codes "t";
  size = 1;
  expected_nodes = 2 ∷ 3 ∷ [];
  received_acks = (2, codes "h") ∷ [];
  created_at = 0;
  done = false;
}

abbrev ack : StreamStoreAck
ack = record {
  session_id = codes "s";
  file_id = 7;
  hash = codes "h";
  node_id = 3;
  success = true;
  error = [];
}

abbrev coordinating : Node
coordinating = record node {
  role = master;
  global_file_index = some [];
  streaming_sessions = (codes "s", upload) ∷ [];
}

upload-done :
    (session : StreamSession)
    → lookup (codes "s") coordinating.streaming_sessions ≡ some session
    → session.done ≡ false
unfolding lookup
upload-done session h = ap done_of (sym h)
  where
    done_of : Option StreamSession → Bool
    done_of none = false
    done_of (some x) = x.done

ack_received-Acknowledges_example : Acknowledges ack coordinating [] (ack_received ack coordinating)
ack_received-Acknowledges_example = ack_received-Acknowledges ack coordinating [] refl upload-done
