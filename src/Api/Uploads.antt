-- ===== src/Api/Uploads.antt =====
-- backend/internal/handlers/file_handler.go: the handlers of an upload in chunks.
--
-- `file` and `now` are the new identifier and the time of a call. The session that a handler finds
-- is the one that the table holds, so what it changes is put back under the identifier of the
-- request. Times are in seconds.
pub mod Chunks
pub mod Runs
pub mod Progress
pub mod Sessions
pub mod Starts
pub mod Whole
pub mod Served
use distributed_file_system.Prelude.{
  ℕ, zero, suc, ◌+◌, ◌-◌, ◌*◌, Bool, true, false, not, ◌||◌, List, [], ◌∷◌, Option, none, some,
  Bytes, ltb, if◌then◌else◌, ◌==◌, nat_eq, bytes_eq, codes,
}
use distributed_file_system.Prelude.Int.{ℤ, pos, pos_part, lt_int, int_eq}
use distributed_file_system.Prelude.Map.{Map, lookup, insert, delete, prune}
use distributed_file_system.Common.Types.{NodeId}
use distributed_file_system.Common.Messages.{Json}
use distributed_file_system.Client.{MasterClient, Network}
use distributed_file_system.Client.Upload.{
  StreamUploadSession, UploadResult, UploadError, Outcome, done, failed, panicked, Opening, Write,
  init_stream_upload, write_chunk, finalize, close,
}
use distributed_file_system.Api.{
  File, Database, UserClaims, UploadSession, FileHandler, Reason, invalid_body, missing_fields,
  invalid_form, missing_session_or_index, invalid_chunk_index, chunk_index_out_of_range,
  missing_chunk, out_of_order, not_all_chunks, not_authorized, session_not_found, chunk_unread,
  create_failed, init_failed, stream_failed, finalize_failed, ChunkedUploadFinalizeResponse,
  session_started, chunk_received, upload_finalized, Response, error, success, guarded,
}
use distributed_file_system.Api.Files.{QueryNumber, missing, malformed, number}
use distributed_file_system.Api.Services.{create_file, create_replicas}

pub record ChunkedUploadInitRequest : Type 0 where
  pub file_name : Bytes
  pub file_size : ℤ
  pub total_chunks : ℤ
  pub content_type : Bytes

-- The chunk of a form: missing, one that cannot be read, or its bytes.
pub data ChunkFile : Type 0 where
  no_file unreadable : ChunkFile
  content : Bytes → ChunkFile

-- What `UploadChunk` reads of a request; the index is a text, and `missing` if it is empty.
pub record ChunkRequest : Type 0 where
  pub parses : Bool
  pub session_id : Bytes
  pub chunk_index : QueryNumber
  pub chunk : ChunkFile

abbrev pub not_positive : ℤ → Bool
not_positive n = not (lt_int (pos 0) n)

-- The session that `InitChunkedUpload` makes for an open stream.
abbrev pub started :
    NodeId → NodeId → ℕ → ChunkedUploadInitRequest → Bytes → StreamUploadSession → UploadSession
started user file now req content_type s = record {
  id = s.session_id;
  file_id = file;
  user_id = user;
  file_name = req.file_name;
  file_size = pos_part req.file_size;
  total_chunks = pos_part req.total_chunks;
  content_type = content_type;
  stream_session = s;
  next_chunk = 0;
  created_at = now;
}

abbrev pub file_of : UploadSession → UploadResult → File
file_of session r = record {
  id = session.file_id;
  name = session.file_name;
  size = session.file_size;
  hash = r.hash;
  content_type = session.content_type;
  owner_id = session.user_id;
  created_at = 0;
  updated_at = 0;
  replicas_count = 0;
}

abbrev pub is_stale : ℕ → UploadSession → Bool
is_stale now session = ltb (24 * 60 * 60) (now - session.created_at)

module _ {Db : Type 0} where
  -- `InitChunkedUpload` once the client has tried to open the stream.
  abbrev pub put_session :
      UserClaims
      → NodeId
      → ℕ
      → ChunkedUploadInitRequest
      → Bytes
      → FileHandler Db
      → Outcome StreamUploadSession
      → FileHandler Db × Response
  put_session claims file now req content_type h (failed e) = (h, error (init_failed e))
  put_session claims file now req content_type h panicked = (h, Response.panicked)
  put_session claims file now req content_type h (done s) = (
    record h {
      sessions =
          insert s.session_id (started claims.user_id file now req content_type s) h.sessions;
    },
    success 200 (session_started s.session_id),
  )

  unfoldable pub init_chunked_upload :
      Network
      → Json
      → (ℕ → Opening)
      → Bytes
      → NodeId
      → ℕ
      → Bool
      → Option UserClaims
      → Option ChunkedUploadInitRequest
      → FileHandler Db
      → FileHandler Db × Response
  init_chunked_upload net json opens request_id file now is_post user body h =
      guarded is_post user (λ r. (h, error r))
        (λ claims. elim body [
          | none ↦ (h, error invalid_body)
          | some req ↦
              if req.file_name == [] || not_positive req.file_size || not_positive req.total_chunks
              then (h, error missing_fields)
              else let content_type =
                  if req.content_type == []
                  then codes "application/octet-stream"
                  else req.content_type in
                let (i, c, r) =
                  init_stream_upload net json opens request_id file req.file_name content_type
                    (pos_part req.file_size) h.connected h.client in
                put_session claims file now req content_type
                  (record h { client = c; connected = i }) r
        ])

  -- `UploadChunk` from the check of the order on.
  unfoldable pub stream_chunk :
      (ℕ → Write)
      → Bytes
      → ℤ
      → ChunkFile
      → UploadSession
      → FileHandler Db
      → FileHandler Db × Response
  stream_chunk writes id index no_file session h = (h, error missing_chunk)
  stream_chunk writes id index unreadable session h =
      if not (index == pos session.next_chunk)
      then (h, error (out_of_order session.next_chunk index))
      else (h, error chunk_unread)
  stream_chunk writes id index (content bytes) session h =
      if not (index == pos session.next_chunk)
      then (h, error (out_of_order session.next_chunk index))
      else let r = write_chunk writes bytes session.stream_session in
        elim r.1 [
          | some e ↦ (record h { sessions = delete id h.sessions }, error (stream_failed e))
          | none ↦ (
            record h {
              sessions =
                  insert id
                    (record session { stream_session = r.0; next_chunk = session.next_chunk + 1 })
                    h.sessions;
            },
            success 200
                (chunk_received session.next_chunk (session.next_chunk + 1) session.total_chunks),
          )
        ]

  -- `UploadChunk` once the index is a number.
  unfoldable pub chunk_for :
      (ℕ → Write) → UserClaims → Bytes → ℤ → ChunkFile → FileHandler Db → FileHandler Db × Response
  unfolding stream_chunk
  chunk_for writes claims id index chunk h = elim (lookup id h.sessions) [
    | none ↦ (h, error session_not_found)
    | some session ↦
        if not (session.user_id == claims.user_id)
        then (h, error not_authorized)
        else if lt_int index (pos 0) || not (lt_int index (pos session.total_chunks))
        then (h, error chunk_index_out_of_range)
        else stream_chunk writes id index chunk session h
  ]

  unfoldable pub upload_chunk :
      (ℕ → Write)
      → Bool
      → Option UserClaims
      → ChunkRequest
      → FileHandler Db
      → FileHandler Db × Response
  unfolding chunk_for
  upload_chunk writes is_post user req h =
      guarded is_post user (λ r. (h, error r))
        (λ claims. if not req.parses then (h, error invalid_form) else elim req.chunk_index [
          | missing ↦ (h, error missing_session_or_index)
          | malformed ↦
              if req.session_id == []
              then (h, error missing_session_or_index)
              else (h, error invalid_chunk_index)
          | number index ↦
              if req.session_id == []
              then (h, error missing_session_or_index)
              else chunk_for writes claims req.session_id index req.chunk h
        ])

  module _ (sql : Database Db) where
    -- `FinalizeChunkedUpload` once the upload is complete. What becomes of the replicas is only
    -- logged.
    unfoldable pub record_file :
        UploadSession → UploadResult → FileHandler Db → FileHandler Db × Response
    unfolding create_file create_replicas
    record_file session r h =
        let (db, fine) = create_file sql (file_of session r) h.db in
        if not fine then (record h { db = db }, error create_failed) else (
          record h { db = (create_replicas sql session.file_id r.node_ids db).0 },
          success 202 (
              upload_finalized (record {
                id = session.file_id;
                filename = session.file_name;
                size = session.file_size;
              })),
        )

    -- `FinalizeChunkedUpload` for a session that has left the table.
    unfoldable pub finalize_session :
        (ℕ → Bytes → Bytes)
        → UserClaims
        → UploadSession
        → FileHandler Db
        → FileHandler Db × Response
    unfolding record_file
    finalize_session responses claims session h =
        if not (session.user_id == claims.user_id)
        then (h, error not_authorized)
        else if not (session.next_chunk == session.total_chunks)
        then (h, error (not_all_chunks session.next_chunk session.total_chunks))
        else elim (finalize responses session.stream_session) [
          | failed e ↦ (h, error (finalize_failed e))
          | panicked ↦ (h, Response.panicked)
          | done r ↦ record_file session r h
        ]

    unfoldable pub finalize_chunked_upload :
        (ℕ → Bytes → Bytes)
        → Bool
        → Option UserClaims
        → Option Bytes
        → FileHandler Db
        → FileHandler Db × Response
    unfolding finalize_session
    finalize_chunked_upload responses is_post user body h =
        guarded is_post user (λ r. (h, error r))
          (λ claims. elim body [
            | none ↦ (h, error invalid_body)
            | some id ↦ elim (lookup id h.sessions) [
              | none ↦ (h, error session_not_found)
              | some session ↦
                  finalize_session responses claims session
                    (record h { sessions = delete id h.sessions })
            ]
          ])

  -- One round of `cleanupStaleSessions`.
  unfoldable pub cleanup_stale_sessions : ℕ → FileHandler Db → FileHandler Db
  cleanup_stale_sessions now h = record h {
    sessions = prune (λ id session. is_stale now session) h.sessions;
  }
