-- ===== src/Common/Messages.antt =====
-- The messages of backend/dfs/common/types.go.
--
-- `json.Marshal` of a value is the value itself; what `json.Unmarshal` makes of a payload is a
-- parameter, `none` for an error.
use distributed_file_system.Prelude.{ℕ, List, Option, Bytes}
use distributed_file_system.Prelude.Int.{ℤ}
use distributed_file_system.Common.Types.{
  NodeId, NodeInfo, LockRequest, MessageType, FileStoreRequest, MetadataRequest, MetadataResponse,
  ReplicateFileRequest, ApiFileDeleteRequest, ApiFileDeleteResponse, StreamUploadInitRequest,
  StreamUploadReadyResponse, StreamDownloadInitRequest, StreamDownloadReadyResponse, StreamStoreAck,
}

-- The anonymous struct of `createRemoteSession` and `handleStreamUploadReady`.
pub record SessionData : Type 0 where
  pub session_id : Bytes
  pub file_id : NodeId
  pub filename : Bytes
  pub content_type : Bytes
  pub size : ℕ

pub data Payload : Type 0 where
  no_payload : Payload
  other_payload : Bytes → Payload
  node_info_json : NodeInfo → Payload
  node_infos_json : List NodeInfo → Payload
  lock_request_json : LockRequest → Payload
  string_json : Bytes → Payload
  metadata_request_json : MetadataRequest → Payload
  metadata_response_json : MetadataResponse → Payload
  replicate_file_json : ReplicateFileRequest → Payload
  file_store_json : FileStoreRequest → Payload
  store_ack_json : StreamStoreAck → Payload
  session_data_json : SessionData → Payload
  upload_init_json : StreamUploadInitRequest → Payload
  upload_ready_json : StreamUploadReadyResponse → Payload
  download_init_json : StreamDownloadInitRequest → Payload
  download_ready_json : StreamDownloadReadyResponse → Payload
  api_delete_json : ApiFileDeleteRequest → Payload
  api_delete_response_json : ApiFileDeleteResponse → Payload

-- What `json.Unmarshal` gives for each type that the node decodes; where the code reads the
-- identifier of a request that failed to decode, `request_id` is what the decoder left there.
pub record Json : Type 0 where
  pub node_info : Payload → Option NodeInfo
  pub node_infos : Payload → Option (List NodeInfo)
  pub lock_request : Payload → Option LockRequest
  pub string : Payload → Option Bytes
  pub metadata_request : Payload → Option MetadataRequest
  pub metadata_response : Payload → Option MetadataResponse
  pub replicate_file : Payload → Option ReplicateFileRequest
  pub store_ack : Payload → Option StreamStoreAck
  pub session_data : Payload → Option SessionData
  pub upload_init : Payload → Option StreamUploadInitRequest
  pub upload_ready : Payload → Option StreamUploadReadyResponse
  pub download_init : Payload → Option StreamDownloadInitRequest
  pub download_ready : Payload → Option StreamDownloadReadyResponse
  pub api_delete : Payload → Option ApiFileDeleteRequest
  pub api_delete_response : Payload → Option ApiFileDeleteResponse
  pub request_id : Payload → Bytes

pub record Message : Type 0 where
  pub kind : MessageType
  pub from : NodeId
  pub to : NodeId
  pub payload : Payload

pub record MessageWithTime : Type 0 where
  pub message : Message
  pub logical_time : ℤ

-- A call `SendMessage(ip, port, msg)`.
pub record Outgoing : Type 0 where
  pub ip : Bytes
  pub port : ℕ
  pub message : Message

abbrev pub send_to : NodeInfo → Message → Outgoing
send_to peer msg = record { ip = peer.ip; port = peer.port; message = msg }
