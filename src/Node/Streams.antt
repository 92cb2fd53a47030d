-- ===== src/Node/Streams.antt =====
-- backend/dfs/node/node.go: the uploads and downloads that the master arranges.
--
-- `new_id` and `new_request` are what `uuid.New().String()` gives; `uuid.Parse` of the text of an
-- identifier is the identifier.
pub mod Replica
pub mod Acks
use distributed_file_system.Prelude.{
  ℕ, ◌+◌, Bool, true, false, not, List, [], ◌∷◌, ◌++◌, Option, none, some, Bytes, length, map, leb,
  if◌then◌else◌, ◌==◌, nat_eq, bytes_eq, codes,
}
use distributed_file_system.Prelude.Crc.{decimal}
use distributed_file_system.Prelude.Map.{Map, lookup, insert, delete}
use distributed_file_system.Common.Types.{
  NodeId, nil_id, Uuid, online, offline, starting, stopping, NodeStatus, NodeInfo, GlobalFileInfo,
  StorageNodeAddr, StreamUploadInitRequest, StreamUploadReadyResponse, StreamDownloadReadyResponse,
  StreamStoreAck, StreamSession, stream_upload_ready, stream_download_ready, stream_store_ack,
}
use distributed_file_system.Common.Messages.{
  Json, SessionData, Message, MessageWithTime, Outgoing, send_to, session_data_json,
  upload_ready_json, download_ready_json, store_ack_json,
}
use distributed_file_system.Hashing.{HashRing, find_nodes_for_file, get_node_count}
use distributed_file_system.Streaming.Protocol.{stream_port_offset}
use distributed_file_system.Streaming.Session.{UploadSession, add_session}
use distributed_file_system.Streaming.Server.{StreamServer}
use distributed_file_system.Node.{Node, is_master, increment_logical_time, get_peer, get_peers}
use distributed_file_system.Node.Files.{Outcome, done, panic, send_api_response}

-- `fmt.Sprintf("%s:%d", node.IP, node.Port+streaming.StreamPortOffset)`
unfoldable pub stream_addr : NodeInfo → Bytes
stream_addr node = node.ip ++ b':' ∷ decimal (node.port + stream_port_offset)

-- `sendStreamUploadResponse`
unfoldable pub send_stream_upload_response :
    Bytes → NodeId → Bytes → List StorageNodeAddr → Bytes → Node → Node × MessageWithTime
send_stream_upload_response new_request to session_id addrs error n =
    send_api_response
      (record {
        kind = stream_upload_ready;
        from = n.id;
        to = to;
        payload = upload_ready_json (record {
          request_id = new_request;
          session_id = session_id;
          storage_nodes = addrs;
          success = error == [];
          error = error;
        });
      })
      n

-- The message of `createRemoteSession`.
unfoldable pub create_remote_session :
    NodeId → NodeInfo → Bytes → StreamUploadInitRequest → Outgoing
create_remote_session self peer session_id request = send_to peer (record {
  kind = stream_upload_ready;
  from = self;
  to = peer.id;
  payload = session_data_json (record {
    session_id = session_id;
    file_id = request.file_id;
    filename = request.filename;
    content_type = request.content_type;
    size = request.size;
  });
})

unfoldable pub create_remote_sessions :
    Node → Bytes → StreamUploadInitRequest → List NodeInfo → List Outgoing
unfolding create_remote_session
create_remote_sessions n session_id request [] = []
create_remote_sessions n session_id request (node ∷ nodes) = elim (get_peer node.id n) [
  | none ↦ create_remote_sessions n session_id request nodes
  | some peer ↦
      create_remote_session n.id peer session_id request
      ∷ create_remote_sessions n session_id request nodes
]

-- The upload is arranged with the nodes that the ring gives.
unfoldable pub upload_arranged :
    Bytes
    → Bytes
    → ℕ
    → NodeId
    → StreamUploadInitRequest
    → List NodeInfo
    → Node
    → Node × List Outgoing × MessageWithTime
unfolding send_stream_upload_response create_remote_sessions stream_addr
upload_arranged new_id new_request now to request [] n =
    let (n', r) =
      send_stream_upload_response new_request to [] [] (codes "no storage nodes found") n in
    (n', [], r)
upload_arranged new_id new_request now to request (node ∷ others) n =
    let nodes = node ∷ others in
    let session : StreamSession = record {
      session_id = new_id;
      file_id = request.file_id;
      filename = request.filename;
      content_type = request.content_type;
      size = request.size;
      expected_nodes = map (λ x. x.id) nodes;
      received_acks = [];
      created_at = now;
      done = false;
    } in
    let (n', r) =
      send_stream_upload_response new_request to new_id
        (map (λ x. record { node_id = x.id; addr = stream_addr x }) nodes) []
        (record n { streaming_sessions = insert new_id session n.streaming_sessions }) in
    (n', create_remote_sessions n new_id request nodes, r)

unfoldable pub handle_stream_upload_init :
    Json → Uuid → Bytes → Bytes → ℕ → Message → Node → Node × List Outgoing × MessageWithTime
unfolding upload_arranged send_stream_upload_response
handle_stream_upload_init json u new_id new_request now msg n =
    elim (json.upload_init msg.payload) [
      | none ↦ refused (codes "invalid request payload")
      | some request ↦ elim (is_master n.role) [
        | false ↦ refused (codes "node is not master")
        | true ↦ elim n.hash_ring [
          | none ↦ refused (codes "no storage nodes available")
          | some ring ↦
              if get_node_count ring == 0
              then refused (codes "no storage nodes available")
              else upload_arranged new_id new_request now msg.from request
                  (find_nodes_for_file u ring request.file_id 3) n
        ]
      ]
    ]
  where
    refused : Bytes → Node × List Outgoing × MessageWithTime
    refused error =
        let (n', r) = send_stream_upload_response new_request msg.from [] [] error n in (n', [], r)

-- `sendStreamDownloadResponse`
unfoldable pub send_stream_download_response :
    NodeId → StreamDownloadReadyResponse → Node → Node × MessageWithTime
send_stream_download_response to response n =
    send_api_response
      (record {
        kind = stream_download_ready;
        from = n.id;
        to = to;
        payload = download_ready_json response;
      })
      n

abbrev pub download_refused : Bytes → Bytes → StreamDownloadReadyResponse
download_refused request_id error = record {
  request_id = request_id;
  storage_addr = [];
  filename = [];
  size = 0;
  hash = [];
  success = false;
  error = error;
}

abbrev pub is_online : NodeStatus → Bool
is_online online = true
is_online offline = false
is_online starting = false
is_online stopping = false

-- The loop that selects the first replica that is a peer and online.
unfoldable pub select_replica : Node → List NodeId → Option NodeInfo
select_replica n [] = none
select_replica n (id ∷ replicas) = elim (get_peer id n) [
  | none ↦ select_replica n replicas
  | some peer ↦ if is_online peer.status then some peer else select_replica n replicas
]

-- The response for a request of a master, and what its index has under the hash.
unfoldable pub download_response :
    Node → Bytes → Option GlobalFileInfo → StreamDownloadReadyResponse
unfolding select_replica stream_addr
download_response n request_id none = download_refused request_id (codes "file not found")
download_response n request_id (some info) =
    if length info.replicas == 0
    then download_refused request_id (codes "no replicas available")
    else elim (select_replica n info.replicas) [
      | none ↦ download_refused request_id (codes "no online replicas")
      | some peer ↦ record {
        request_id = request_id;
        storage_addr = stream_addr peer;
        filename = info.filename;
        size = info.size;
        hash = info.hash;
        success = true;
        error = [];
      }
    ]

-- A read of the index; a nil map has no key.
abbrev pub index_entry : Bytes → Option (Map Bytes GlobalFileInfo) → Option GlobalFileInfo
index_entry hash none = none
index_entry hash (some index) = lookup hash index

unfoldable pub handle_stream_download_init : Json → Message → Node → Node × MessageWithTime
unfolding download_response send_stream_download_response
handle_stream_download_init json msg n =
    send_stream_download_response msg.from
      (elim (json.download_init msg.payload) [
        | none ↦ download_refused (json.request_id msg.payload) (codes "invalid request payload")
        | some request ↦
            if not (is_master n.role)
            then download_refused request.request_id (codes "node is not master")
            else download_response n request.request_id
                (index_entry request.hash n.global_file_index)
      ])
      n

-- The session after an ack, and whether it is complete.
unfoldable pub note_ack : StreamStoreAck → StreamSession → StreamSession × Bool
note_ack ack session =
    let acks = insert ack.node_id ack.hash session.received_acks in
    (record session { received_acks = acks }, leb (length session.expected_nodes) (length acks))

-- A complete upload is put in the index, and its session goes.
unfoldable pub upload_completed : StreamStoreAck → StreamSession → Node → Outcome Node
upload_completed ack session n = elim n.global_file_index [
  | none ↦ panic
  | some index ↦
      if session.done
      then panic
      else done (record n {
        global_file_index = some (
            insert ack.hash
              (record {
                file_id = session.file_id;
                filename = session.filename;
                hash = ack.hash;
                size = session.size;
                content_type = session.content_type;
                replicas = session.expected_nodes;
              })
              index);
        streaming_sessions = delete ack.session_id n.streaming_sessions;
      })
]

unfoldable pub ack_received : StreamStoreAck → Node → Outcome Node
unfolding note_ack upload_completed
ack_received ack n = elim (lookup ack.session_id n.streaming_sessions) [
  | none ↦ done n
  | some session ↦ elim (note_ack ack session).1 [
    | false ↦ done (record n {
      streaming_sessions = insert ack.session_id (note_ack ack session).0 n.streaming_sessions;
    })
    | true ↦ upload_completed ack (note_ack ack session).0 n
  ]
]

unfoldable pub handle_stream_store_ack : Json → Message → Node → Outcome Node
unfolding ack_received
handle_stream_store_ack json msg n = elim (json.store_ack msg.payload) [
  | none ↦ done n
  | some ack ↦ ack_received ack n
]

unfoldable pub handle_stream_upload_ready : Json → ℕ → Message → Node → Node
handle_stream_upload_ready json now msg n = elim (json.session_data msg.payload) [
  | none ↦ n
  | some d ↦ record n {
    server = record n.server {
      sessions =
          add_session
            (record {
              session_id = d.session_id;
              file_id = d.file_id;
              filename = d.filename;
              content_type = d.content_type;
              size = d.size;
              created_at = now;
            })
            n.server.sessions;
    };
  }
]

unfoldable pub find_master : List NodeInfo → Option NodeInfo
find_master [] = none
find_master (peer ∷ peers) = if is_master peer.role then some peer else find_master peers

-- `onStreamUploadComplete`: the ack to the master, if a peer is one.
unfoldable pub on_stream_upload_complete : Bytes → NodeId → Bytes → Node → List Outgoing
unfolding find_master
on_stream_upload_complete session_id file hash n = elim (find_master (get_peers n)) [
  | none ↦ []
  | some peer ↦
      send_to peer (record {
        kind = stream_store_ack;
        from = n.id;
        to = peer.id;
        payload = store_ack_json (record {
          session_id = session_id;
          file_id = file;
          hash = hash;
          node_id = n.id;
          success = true;
          error = [];
        });
      })
      ∷ []
]
