-- ===== src/Api.antt =====
-- backend/internal: the HTTP interface for files, its services, and the claims of a user.
--
-- A handler takes what it reads of the request and gives the response and the new state, as one step.
-- The code holds a lock on a session, but `UploadChunk` takes it after the look-up in the table, so
-- that another request can take the session out in between; such an interleaving is left out, and so
-- is the closing of connections, which leaves nothing in this state. The database is a parameter: a record of what the
-- queries of the services do on a state `Db`, of which each may fail. What the standard library and
-- github.com/google/uuid make of a text of the request is part of the request.
pub mod Services
pub mod Files
pub mod Uploads
pub mod Auth
use distributed_file_system.Prelude.{
  ℕ, ◌+◌, Bool, true, false, List, Option, none, some, Bytes, codes,
}
use distributed_file_system.Prelude.Int.{ℤ}
use distributed_file_system.Prelude.Map.{Map}
use distributed_file_system.Common.Types.{NodeId, NodeInfo}
use distributed_file_system.Client.{MasterClient}
use distributed_file_system.Client.Upload.{StreamUploadSession, UploadError}
use distributed_file_system.Client.Download.{DownloadError}

-- The row of a file. The counts and times that the database makes are left to `replicas_count`,
-- `created_at` and `updated_at`.
pub record File : Type 0 where
  pub id : NodeId
  pub name : Bytes
  pub size : ℕ
  pub hash : Bytes
  pub content_type : Bytes
  pub owner_id : NodeId
  pub created_at : ℕ
  pub updated_at : ℕ
  pub replicas_count : ℕ

pub record Database (Db : Type 0) : Type 0 where
  pub select_file : Db → NodeId → Option File
  pub insert_file : Db → File → Db × Bool
  pub delete_from_files : Db → NodeId → Db × Bool
  pub insert_replica : Db → NodeId → NodeId → Db × Bool
  pub count_files : Db → NodeId → Option ℕ
  pub select_files : Db → NodeId → ℕ → ℤ → Option (List File)

pub record UserClaims : Type 0 where
  pub user_id : NodeId
  pub username : Bytes
  pub email : Bytes
  pub role : Bytes

-- `UploadSession` of the handlers.
pub record UploadSession : Type 0 where
  pub id : Bytes
  pub file_id : NodeId
  pub user_id : NodeId
  pub file_name : Bytes
  pub file_size : ℕ
  pub total_chunks : ℕ
  pub content_type : Bytes
  pub stream_session : StreamUploadSession
  pub next_chunk : ℕ
  pub created_at : ℕ

-- The handler, with the database of its service and the connections that its client has made.
pub record FileHandler (Db : Type 0) : Type 0 where
  pub db : Db
  pub client : MasterClient
  pub connected : ℕ
  pub sessions : Map Bytes UploadSession

-- Why a request is refused.
pub data Reason : Type 0 where
  method_not_allowed not_authenticated : Reason
  missing_file_id invalid_file_id missing_node_id invalid_body missing_fields invalid_form : Reason
  missing_session_or_index invalid_chunk_index chunk_index_out_of_range missing_chunk : Reason
  out_of_order : ℕ → ℤ → Reason
  not_all_chunks : ℕ → ℕ → Reason
  forbidden not_authorized : Reason
  file_not_found node_not_found session_not_found : Reason
  list_failed nodes_failed delete_failed chunk_unread create_failed : Reason
  init_failed stream_failed finalize_failed : UploadError → Reason

abbrev pub status : Reason → ℕ
status method_not_allowed = 405
status not_authenticated = 401
status forbidden = 403
status not_authorized = 403
status file_not_found = 404
status node_not_found = 404
status session_not_found = 404
status list_failed = 500
status nodes_failed = 500
status delete_failed = 500
status chunk_unread = 500
status create_failed = 500
status (init_failed e) = 500
status (stream_failed e) = 500
status (finalize_failed e) = 500
status _ = 400

pub record FileItem : Type 0 where
  pub id : NodeId
  pub filename : Bytes
  pub size : ℕ
  pub content_type : Bytes
  pub hash : Bytes
  pub owner_id : NodeId
  pub created_at : ℕ
  pub updated_at : ℕ
  pub replicas_count : ℕ

pub record FileListResponse : Type 0 where
  pub files : List FileItem
  pub total : ℕ
  pub page : ℕ
  pub per_page : ℕ

pub record ChunkedUploadFinalizeResponse : Type 0 where
  pub id : NodeId
  pub filename : Bytes
  pub size : ℕ

-- What a success carries; a download carries the headers and the bytes, and the error that the
-- server only prints.
pub data Body : Type 0 where
  file_list : FileListResponse → Body
  file_item : FileItem → Body
  node_list : List NodeInfo → Body
  node_info : NodeInfo → Body
  deleted : NodeId → Body
  session_started : Bytes → Body
  chunk_received : ℕ → ℕ → ℕ → Body
  upload_finalized : ChunkedUploadFinalizeResponse → Body
  attachment : Bytes → Bytes → ℕ → Bytes → Option DownloadError → Body

-- `panicked` is a run-time panic in the handler.
pub data Response : Type 0 where
  error : Reason → Response
  success : ℕ → Body → Response
  panicked : Response

-- The checks that every handler starts with.
abbrev pub guarded {ℓ} :
    {A : Type ℓ} → Bool → Option UserClaims → (Reason → A) → (UserClaims → A) → A
guarded false claims refuse serve = refuse method_not_allowed
guarded true none refuse serve = refuse not_authenticated
guarded true (some c) refuse serve = serve c

abbrev pub admin : Bytes
admin = codes "admin"
