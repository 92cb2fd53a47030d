-- ===== src/Api/Uploads/Served.antt =====
-- Uploads in chunks of backend/internal/handlers/file_handler.go against the stream servers of
-- backend/dfs/streaming/stream.go.
use distributed_file_system.Prelude.{
  ℕ, ◌<◌, ◌≤◌, ◌^◌, ◌≡◌, ◌≢◌, sym, ap, ◌∙◌, Bool, true, Option, some, List, Bytes, All, length,
  bytes_eq, ◌++◌,
}
use distributed_file_system.Prelude.Map.{lookup}
use distributed_file_system.Common.Types.{NodeId, StreamUploadReadyResponse}
use distributed_file_system.Storage.{Call, Error}
use distributed_file_system.Streaming.Protocol.{encode_header}
use distributed_file_system.Streaming.Session.{SessionManager}
use distributed_file_system.Streaming.Server.{StreamServer}
use distributed_file_system.Client.Upload.{UploadResult, done, Opening, upload_header, open_session}
use distributed_file_system.Client.Upload.Opened.{open_session-done}
use distributed_file_system.Client.Upload.Stored.{Stores, served, respond, Finalizes-Stores}
use distributed_file_system.Api.{Database, UserClaims, UploadSession, FileHandler, Body, success}
use distributed_file_system.Api.Uploads.{file_of, finalize_chunked_upload}
use distributed_file_system.Api.Uploads.Chunks.{ChunkCall}
use distributed_file_system.Api.Uploads.Runs.{accepted, contents, run_chunks}
use distributed_file_system.Api.Uploads.Whole.{finalize-run_chunks}

module _ {Db : Type 0} (sql : Database Db) (sum : Bytes → Bytes) (fails : ℕ → Call → Bool)
    (text : Error → Bytes) (now : ℕ → ℕ) (view : ℕ → ℕ → ℕ × SessionManager)
    (servers : ℕ → StreamServer) where
  -- What users upload in chunks the storage nodes hold. Let a session be as it was created, on a
  -- stream that was opened to the nodes that the master named, for a size below 2 ^ 63 and a session
  -- identifier of at most 36 bytes that are not zero; let some calls of `UploadChunk` be made, in any
  -- order and by anybody, and the finalization succeed; and let the bytes of the accepted chunks have
  -- a hash of 64 bytes that are not zero. Then the file that the database took has the size of these
  -- bytes and their hash, and each of the nodes gives back exactly these bytes for this hash.
  pub finalize-Stores :
      (opens : ℕ → Opening) (file : NodeId) (size : ℕ) (ready : StreamUploadReadyResponse)
      (cs : List ChunkCall) (h : FileHandler Db) (id : Bytes) (s : UploadSession) (is_post : Bool)
      (user : Option UserClaims) (code : ℕ) (b : Body)
      → open_session opens file size ready ≡ done s.stream_session
      → size < 2 ^ 63
      → All (λ b. b ≢ 0) ready.session_id
      → length ready.session_id ≤ 36
      → lookup id h.sessions ≡ some s
      → s.next_chunk ≡ 0
      → s.file_size ≡ size
      → let run = run_chunks cs h in
        let content = contents (accepted id cs run.1) in
        (finalize_chunked_upload sql
            (respond sum fails text now view servers)
            is_post
            user
            (some id)
            run.0).1
          ≡ success code b
        → All (λ b. b ≢ 0) (sum content)
        → length (sum content) ≡ 64
        → ((r : UploadResult) × ((sql.insert_file run.0.db (file_of s r)).1 ≡ true)
            × ((file_of s r).hash ≡ sum content)
            × ((file_of s r).size ≡ length content)
            × ((k : ℕ)
                → k < length ready.storage_nodes
                → Stores sum content (
                    served sum fails text now view servers k
                      (encode_header (upload_header ready.session_id size) ++ content))))
  finalize-Stores opens file size ready cs h id s is_post user code b begun small clean fits there
        fresh sized finished bytes long =
      let (n, ns, nodes, same) = open_session-done opens file size ready s.stream_session begun in
      let (_, _, whole, _, (claims, r, _, _, final, put)) =
        finalize-run_chunks sql (respond sum fails text now view servers) cs h id s is_post user
          code b there fresh (ap (λ t. t.bytes_written) same) (ap (λ t. t.size) same ∙ sym sized)
          finished in
      let (_, hash, _, holds) =
        Finalizes-Stores sum fails text now view servers opens file size ready s.stream_session r
          small clean fits (contents (accepted id cs (run_chunks cs h).1)) begun final bytes long in
      (r, put, hash, sym whole, holds)
