-- ===== src/Common/Types.antt =====
-- backend/dfs/common/types.go: the data that nodes keep and exchange.
--
-- A uuid.UUID is its 128-bit value, `uuid.Nil` is 0; strings are bytes; a time.Time is a number of
-- nanoseconds; channels that are only closed are a flag.
use distributed_file_system.Prelude.{ℕ, ◌*◌, ◌≡◌, Bool, List, Bytes}
use distributed_file_system.Prelude.Int.{ℤ}
use distributed_file_system.Prelude.Map.{Map}

abbrev pub NodeId : Type 0
NodeId = ℕ

abbrev pub nil_id : NodeId
nil_id = 0

-- What the code uses of github.com/google/uuid: the text of an identifier, which determines it.
pub record Uuid : Type 0 where
  pub string : NodeId → Bytes
  pub string_injective : (a b : NodeId) → string a ≡ string b → a ≡ b

abbrev pub second : ℕ
second = 1_000_000_000

pub data NodeRole : Type 0 where
  master storage : NodeRole

pub data NodeStatus : Type 0 where
  online offline starting stopping : NodeStatus

pub record NodeInfo : Type 0 where
  pub id : NodeId
  pub ip : Bytes
  pub port : ℕ
  pub role : NodeRole
  pub status : NodeStatus
  pub priority : ℤ
  pub last_heartbeat : ℕ

pub data LockStatus : Type 0 where
  pending granted released : LockStatus

abbrev pub lock_timeout : ℕ
lock_timeout = 30 * second

pub record LockRequest : Type 0 where
  pub resource_id : Bytes
  pub node_id : NodeId
  pub logical_time : ℤ
  pub status : LockStatus
  pub requested_at : ℕ

-- `not_visited` is a key of the map; the zero value of a missing key is `none` of the lookup.
pub data GraphNodeStatus : Type 0 where
  not_visited visiting visited : GraphNodeStatus

pub data MessageType : Type 0 where
  heartbeat election discovery node_joined node_left coordinator election_ok : MessageType
  lock_request lock_ack lock_acquired lock_release lock_abort : MessageType
  file_store file_store_ack file_retrieve file_retrieve_response file_delete : MessageType
  metadata_request metadata_response replicate_file : MessageType
  api_file_delete : MessageType
  stream_upload_init stream_upload_ready stream_download_init stream_download_ready : MessageType
  stream_store_ack : MessageType

-- The types of the values that messages carry.
pub record FileStoreRequest : Type 0 where
  pub file_id : NodeId
  pub filename : Bytes
  pub content_type : Bytes
  pub size : ℕ
  pub data_bytes : Bytes

pub record GlobalFileInfo : Type 0 where
  pub file_id : NodeId
  pub filename : Bytes
  pub hash : Bytes
  pub size : ℕ
  pub content_type : Bytes
  pub replicas : List NodeId

-- `done` says that the channel `Done` is closed.
pub record MetadataSyncState : Type 0 where
  pub request_id : Bytes
  pub expected_nodes : ℕ
  pub received_nodes : Map NodeId Bool
  pub done : Bool

pub record MetadataRequest : Type 0 where
  pub request_id : Bytes

pub record NodeFileMetadata : Type 0 where
  pub file_id : NodeId
  pub filename : Bytes
  pub hash : Bytes
  pub size : ℕ
  pub content_type : Bytes

pub record MetadataResponse : Type 0 where
  pub request_id : Bytes
  pub node_id : NodeId
  pub files : List NodeFileMetadata

pub record ReplicateFileRequest : Type 0 where
  pub file_id : NodeId
  pub filename : Bytes
  pub hash : Bytes
  pub source_node : NodeId
  pub target_nodes : List NodeId

pub record ApiFileDeleteRequest : Type 0 where
  pub request_id : Bytes
  pub file_id : NodeId
  pub hash : Bytes

pub record ApiFileDeleteResponse : Type 0 where
  pub request_id : Bytes
  pub success : Bool
  pub error : Bytes

pub record StreamUploadInitRequest : Type 0 where
  pub request_id : Bytes
  pub file_id : NodeId
  pub filename : Bytes
  pub content_type : Bytes
  pub size : ℕ

pub record StorageNodeAddr : Type 0 where
  pub node_id : NodeId
  pub addr : Bytes

pub record StreamUploadReadyResponse : Type 0 where
  pub request_id : Bytes
  pub session_id : Bytes
  pub storage_nodes : List StorageNodeAddr
  pub success : Bool
  pub error : Bytes

pub record StreamDownloadInitRequest : Type 0 where
  pub request_id : Bytes
  pub file_id : NodeId
  pub hash : Bytes

pub record StreamDownloadReadyResponse : Type 0 where
  pub request_id : Bytes
  pub storage_addr : Bytes
  pub filename : Bytes
  pub size : ℕ
  pub hash : Bytes
  pub success : Bool
  pub error : Bytes

pub record StreamStoreAck : Type 0 where
  pub session_id : Bytes
  pub file_id : NodeId
  pub hash : Bytes
  pub node_id : NodeId
  pub success : Bool
  pub error : Bytes

-- `done` says that the channel `Done` is closed.
pub record StreamSession : Type 0 where
  pub session_id : Bytes
  pub file_id : NodeId
  pub filename : Bytes
  pub content_type : Bytes
  pub size : ℕ
  pub expected_nodes : List NodeId
  pub received_acks : Map NodeId Bytes
  pub created_at : ℕ
  pub done : Bool
