-- ===== src/Node/Files.antt =====
-- backend/dfs/node/node.go: deletion, the index of files of the master, and the repair of replicas.
--
-- `panic` is a run-time panic, which ends the process: a write to a nil map, a method of a nil ring,
-- the close of a closed channel.
pub mod Replicas
pub mod Repair
use distributed_file_system.Prelude.{
  ℕ, zero, suc, Bool, true, false, not, List, [], ◌∷◌, ◌++◌, Option, none, some, Bytes, length, ltb,
  leb, if◌then◌else◌, ◌==◌, nat_eq, bytes_eq, codes,
}
use distributed_file_system.Prelude.Map.{Map, lookup, insert, values}
use distributed_file_system.Common.Types.{
  NodeId, nil_id, Uuid, NodeInfo, GlobalFileInfo, MetadataSyncState, NodeFileMetadata,
  MetadataResponse, ReplicateFileRequest, ApiFileDeleteResponse, MetadataRequest, file_delete,
  metadata_request, metadata_response, replicate_file, file_store, api_file_delete,
}
use distributed_file_system.Common.Messages.{
  Json, Message, MessageWithTime, Outgoing, Payload, send_to, string_json, metadata_request_json,
  metadata_response_json, replicate_file_json, file_store_json, api_delete_response_json,
}
use distributed_file_system.Hashing.{HashRing, find_nodes_for_file, get_node_count}
use distributed_file_system.Storage.{
  LocalStorage, FileMetadata, Call, Result, ok, err, panicked, get_file, get_all_metadata,
}
use distributed_file_system.Streaming.Server.{StreamServer}
use distributed_file_system.Node.{
  Node, is_master, increment_logical_time, get_peer, get_peers, broadcast_to,
}

pub data Outcome {ℓ} (A : Type ℓ) : Type ℓ where
  done : A → Outcome A
  panic : Outcome A

-- A new state after `DeleteFile` of the storage, whose error is only logged.
unfoldable pub file_deleted : Node → LocalStorage × Result (Unit {0}) → Outcome Node
file_deleted n (s, panicked) = panic
file_deleted n (s, ok _) = done (record n { server = record n.server { storage = s } })
file_deleted n (s, err _) = done (record n { server = record n.server { storage = s } })

unfoldable pub handle_file_delete : Json → (Call → Bool) → Message → Node → Outcome Node
unfolding file_deleted
handle_file_delete json fails msg n = elim (json.string msg.payload) [
  | none ↦ done n
  | some hash ↦
      file_deleted n (distributed_file_system.Storage.delete_file fails hash n.server.storage)
]

unfoldable pub file_metadata : List FileMetadata → List NodeFileMetadata
file_metadata [] = []
file_metadata (meta ∷ ms) =
    record {
      file_id = meta.file_id;
      filename = meta.filename;
      hash = meta.hash;
      size = meta.size;
      content_type = meta.content_type;
    }
    ∷ file_metadata ms

unfoldable pub handle_metadata_request : Json → Message → Node → List Outgoing
unfolding file_metadata
handle_metadata_request json msg n = elim (json.metadata_request msg.payload) [
  | none ↦ []
  | some request ↦ elim (get_peer msg.from n) [
    | none ↦ []
    | some peer ↦
        send_to peer (record {
          kind = metadata_response;
          from = n.id;
          to = msg.from;
          payload = metadata_response_json (record {
            request_id = request.request_id;
            node_id = n.id;
            files = file_metadata (get_all_metadata n.server.storage);
          });
        })
        ∷ []
  ]
]

unfoldable pub has_replica : NodeId → List NodeId → Bool
has_replica id [] = false
has_replica id (r ∷ replicas) = if r == id then true else has_replica id replicas

-- One round of the loop of `handleMetadataResponse`: what is noted under the file's hash.
unfoldable pub merge_file : NodeId → NodeFileMetadata → Option GlobalFileInfo → GlobalFileInfo
unfolding has_replica
merge_file id file none = record {
  file_id = file.file_id;
  filename = file.filename;
  hash = file.hash;
  size = file.size;
  content_type = file.content_type;
  replicas = id ∷ [];
}
merge_file id file (some existing) =
    if has_replica id existing.replicas
    then existing
    else record existing { replicas = existing.replicas ++ id ∷ [] }

unfoldable pub merge_files :
    NodeId → List NodeFileMetadata → Map Bytes GlobalFileInfo → Map Bytes GlobalFileInfo
merge_files id [] index = index
merge_files id (file ∷ files) index =
    merge_files id files (insert file.hash (merge_file id file (lookup file.hash index)) index)

-- The index after a response; a nil index can only be read.
unfoldable pub index_merged :
    MetadataResponse
    → Option (Map Bytes GlobalFileInfo)
    → Outcome (Option (Map Bytes GlobalFileInfo))
unfolding merge_files
index_merged response (some index) = done (some (merge_files response.node_id response.files index))
index_merged response none = if length response.files == 0 then done none else panic

-- The answer is counted; the channel is closed when enough nodes have answered.
unfoldable pub sync_received :
    MetadataResponse → Option MetadataSyncState → Outcome (Option MetadataSyncState)
sync_received response none = done none
sync_received response (some sync) =
    if not (sync.request_id == response.request_id)
    then done (some sync)
    else let received = insert response.node_id true sync.received_nodes in
      if not (leb sync.expected_nodes (length received))
      then done (some (record sync { received_nodes = received }))
      else if sync.done
      then panic
      else done (some (record sync { received_nodes = received; done = true }))

unfoldable pub metadata_received :
    Node
    → Outcome (Option (Map Bytes GlobalFileInfo))
    → Outcome (Option MetadataSyncState)
    → Outcome Node
metadata_received n panic sync = panic
metadata_received n (done index) panic = panic
metadata_received n (done index) (done sync) =
    done (record n { global_file_index = index; pending_metadata_sync = sync })

unfoldable pub handle_metadata_response : Json → Message → Node → Outcome Node
unfolding index_merged sync_received metadata_received
handle_metadata_response json msg n =
    if not (is_master n.role) then done n else elim (json.metadata_response msg.payload) [
      | none ↦ done n
      | some response ↦
          metadata_received n (index_merged response n.global_file_index)
            (sync_received response n.pending_metadata_sync)
    ]

unfoldable pub storage_peers : List NodeInfo → List NodeInfo
storage_peers [] = []
storage_peers (peer ∷ peers) =
    if is_master peer.role then storage_peers peers else peer ∷ storage_peers peers

unfoldable pub request_metadata_from_all_nodes : Bytes → Node → List Outgoing
unfolding storage_peers
request_metadata_from_all_nodes request_id n = broadcast_to (storage_peers (get_peers n)) (record {
  kind = metadata_request;
  from = n.id;
  to = nil_id;
  payload = metadata_request_json (record { request_id = request_id });
})

-- `syncMetadataAfterElection` up to the wait, for a new request identifier: nothing while another
-- one runs, without a ring, or without nodes on it.
unfoldable pub begin_metadata_sync : Bytes → Node → Node × List Outgoing
unfolding request_metadata_from_all_nodes
begin_metadata_sync request_id n = if n.sync_in_progress then (n, []) else elim n.hash_ring [
  | none ↦ (n, [])
  | some ring ↦ if get_node_count ring == 0 then (n, []) else (
    record n {
      sync_in_progress = true;
      pending_metadata_sync = some (record {
        request_id = request_id;
        expected_nodes = get_node_count ring;
        received_nodes = [];
        done = false;
      });
    },
    request_metadata_from_all_nodes request_id n,
  )
]

abbrev pub required_replicas : ℕ
required_replicas = 3

-- The nodes of the placement that hold no replica.
unfoldable pub missing_nodes : List NodeInfo → List NodeId → List NodeId
unfolding has_replica
missing_nodes [] replicas = []
missing_nodes (node ∷ nodes) replicas =
    if has_replica node.id replicas
    then missing_nodes nodes replicas
    else node.id ∷ missing_nodes nodes replicas

-- The message of `initiateReplication` to the first replica.
unfoldable pub replication_request :
    Node → GlobalFileInfo → NodeId → Option NodeInfo → List NodeId → List Outgoing
replication_request n info source peer [] = []
replication_request n info source none missing = []
replication_request n info source (some peer) missing =
    send_to peer (record {
      kind = replicate_file;
      from = n.id;
      to = source;
      payload = replicate_file_json (record {
        file_id = info.file_id;
        filename = info.filename;
        hash = info.hash;
        source_node = source;
        target_nodes = missing;
      });
    })
    ∷ []

-- `initiateReplication`, with the nodes that the ring gives.
unfoldable pub initiate_replication : Node → GlobalFileInfo → List NodeInfo → List Outgoing
unfolding missing_nodes replication_request
initiate_replication n info expected = elim info.replicas [
  | [] ↦ []
  | source ∷ _ ↦
      replication_request n info source (get_peer source n) (missing_nodes expected info.replicas)
]

unfoldable pub files_to_repair : List GlobalFileInfo → List GlobalFileInfo
files_to_repair [] = []
files_to_repair (info ∷ infos) =
    if ltb (length info.replicas) required_replicas
    then info ∷ files_to_repair infos
    else files_to_repair infos

unfoldable pub repair_files : Uuid → Node → HashRing → List GlobalFileInfo → List Outgoing
unfolding initiate_replication
repair_files u n ring [] = []
repair_files u n ring (info ∷ infos) =
    initiate_replication n info (find_nodes_for_file u ring info.file_id required_replicas)
    ++ repair_files u n ring infos

-- `verifyAndRepairReplication`; a nil ring is only reached for files that have a replica.
unfoldable pub verify_and_repair_replication : Uuid → Node → Outcome (List Outgoing)
unfolding repair_files files_to_repair
verify_and_repair_replication u n = elim n.global_file_index [
  | none ↦ done []
  | some index ↦ elim n.hash_ring [
    | some ring ↦ done (repair_files u n ring (files_to_repair (values index)))
    | none ↦ if any_replicated (files_to_repair (values index)) then panic else done []
  ]
]
  where
    any_replicated : List GlobalFileInfo → Bool
    any_replicated [] = false
    any_replicated (info ∷ infos) = if length info.replicas == 0 then any_replicated infos else true

-- `syncMetadataAfterElection` after the wait, whether all nodes have answered or not.
unfoldable pub end_metadata_sync : Uuid → Node → Outcome (Node × List Outgoing)
unfolding verify_and_repair_replication
end_metadata_sync u n = elim (verify_and_repair_replication u n) [
  | panic ↦ panic
  | done out ↦ done (record n { sync_in_progress = false; pending_metadata_sync = none }, out)
]

-- The loop of `handleReplicateFile` over the targets.
unfoldable pub send_to_targets : Node → Message → List NodeId → List Outgoing
send_to_targets n msg [] = []
send_to_targets n msg (target ∷ targets) = elim (get_peer target n) [
  | none ↦ send_to_targets n msg targets
  | some peer ↦ send_to peer msg ∷ send_to_targets n msg targets
]

-- The rest of `handleReplicateFile` once `GetFile` has returned.
unfoldable pub replicate_found :
    Node → List NodeId → Result (Bytes × FileMetadata) → Outcome (List Outgoing)
unfolding send_to_targets
replicate_found n targets panicked = panic
replicate_found n targets (err e) = done []
replicate_found n targets (ok (content, meta)) = done (
    send_to_targets n
      (record {
        kind = file_store;
        from = n.id;
        to = nil_id;
        payload = file_store_json (record {
          file_id = meta.file_id;
          filename = meta.filename;
          content_type = meta.content_type;
          size = meta.size;
          data_bytes = content;
        });
      })
      targets)

unfoldable pub handle_replicate_file : Json → Message → Node → Outcome (List Outgoing)
unfolding replicate_found
handle_replicate_file json msg n = elim (json.replicate_file msg.payload) [
  | none ↦ done []
  | some request ↦ replicate_found n request.target_nodes (get_file request.hash n.server.storage)
]

-- `DeleteFile` of the node: a message to each node of the placement.
unfoldable pub delete_file : Uuid → NodeId → Bytes → Node → Outcome (List Outgoing)
delete_file u file hash n = elim n.hash_ring [
  | none ↦ panic
  | some ring ↦ done (
      broadcast_to (find_nodes_for_file u ring file 3)
        (record { kind = file_delete; from = n.id; to = nil_id; payload = string_json hash }))
]

abbrev pub api_response : NodeId → NodeId → Bytes → Bytes → Message
api_response self to request_id error = record {
  kind = api_file_delete;
  from = self;
  to = to;
  payload =
      api_delete_response_json
        (record { request_id = request_id; success = error == []; error = error });
}

-- `sendAPIResponse`
unfoldable pub send_api_response : Message → Node → Node × MessageWithTime
send_api_response msg n =
    let (n', t) = increment_logical_time n in (n', record { message = msg; logical_time = t })

-- The messages to the nodes, and the response on the connection.
unfoldable pub handle_api_file_delete :
    Json → Uuid → Message → Node → Outcome (Node × List Outgoing × MessageWithTime)
unfolding delete_file send_api_response
handle_api_file_delete json u msg n = elim (json.api_delete msg.payload) [
  | none ↦
      let (n', r) =
        send_api_response
          (api_response n.id msg.from (json.request_id msg.payload)
            (codes "invalid request payload"))
          n in
      done (n', [], r)
  | some request ↦ elim (is_master n.role) [
    | false ↦
        let (n', r) =
          send_api_response
            (api_response n.id msg.from request.request_id (codes "node is not master")) n in
        done (n', [], r)
    | true ↦ elim (delete_file u request.file_id request.hash n) [
      | panic ↦ panic
      | done out ↦
          let (n', r) = send_api_response (api_response n.id msg.from request.request_id []) n in
          done (n', out, r)
    ]
  ]
]
