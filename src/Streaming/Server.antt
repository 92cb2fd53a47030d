-- ===== src/Streaming/Server.antt =====
-- backend/dfs/streaming/stream.go: the connections of a storage node's stream server.
--
-- The bytes of a connection are read after its first, the magic byte. `view` is the time and the
-- sessions that each look for the session sees, `sum` the text of the SHA-256 sum, `fails` the
-- system calls that fail, `text` the text of an error. A read of a file fills the buffer while it has
-- bytes left; a write to the connection succeeds.
pub mod Transfer
use distributed_file_system.Prelude.{
  ℕ, zero, suc, ◌+◌, ◌-◌, ◌^◌, Bool, true, false, List, [], ◌∷◌, ◌++◌, Option, none, some, Bytes,
  length, take, drop, replicate, get_or, ltb, if◌then◌else◌, ◌==◌, nat_eq, codes,
}
use distributed_file_system.Common.Types.{NodeId}
use distributed_file_system.Storage.{
  LocalStorage, FileMetadata, Call, Error, Result, ok, err, panicked, save_file, get_file,
}
use distributed_file_system.Streaming.Protocol.{
  StreamHeader, header_size, download_request_size, default_chunk_size, magic_upload,
  magic_download, read_full, parse_header, trim_null, copy_padded, encode_header,
}
use distributed_file_system.Streaming.Session.{
  UploadSession, SessionManager, get_session, remove_session,
}

pub record StreamServer : Type 0 where
  pub storage : LocalStorage
  pub sessions : SessionManager

-- What the client sees: nothing, some bytes, or the end of the process by a run-time panic.
pub data Reply : Type 0 where
  silence : Reply
  reply : Bytes → Reply
  crash : Reply

-- What a connection leaves: the server, the call of `onUploadComplete`, and the reply.
pub record Handled : Type 0 where
  pub server : StreamServer
  pub completed : Option (Bytes × NodeId × Bytes)
  pub answer : Reply

abbrev pub unchanged : StreamServer → Reply → Handled
unchanged s a = record { server = s; completed = none; answer = a }

-- `sendUploadResponse`: a status byte, 64 bytes for the hash, 256 for the error.
unfoldable pub upload_response : Bool → Bytes → Bytes → Bytes
upload_response success hash message =
    if success
    then 1 ∷ (copy_padded 64 hash ++ replicate 256 0)
    else 0 ∷ (replicate 64 0 ++ copy_padded 256 message)

-- `sendDownloadError`: -1 is the word of ones.
unfoldable pub download_error : Bytes → Bytes
download_error message =
    encode_header (record {
      magic = magic_download;
      session_id = codes "error";
      file_size = 2 ^ 64 - 1;
      chunk_size = 0;
    })
    ++ copy_padded 256 message

-- The loop that waits for the session: ten looks at most.
unfoldable pub await_session : (ℕ → ℕ × SessionManager) → Bytes → ℕ → ℕ → Option UploadSession
await_session view id zero retry = none
await_session view id (suc rounds) retry = elim (get_session (view retry).0 id (view retry).1) [
  | some session ↦ some session
  | none ↦ await_session view id rounds (retry + 1)
]

-- `io.LimitReader`: a negative limit reads nothing, and a connection that ends early is no error.
unfoldable pub limited : ℕ → Bytes → Bytes
limited size body = if ltb size (2 ^ 63) then take size body else []

-- The rest of `handleUpload` once `SaveFile` has returned.
unfoldable pub upload_saved :
    (Error → Bytes)
    → StreamHeader
    → UploadSession
    → StreamServer
    → LocalStorage × Result FileMetadata
    → Handled
upload_saved text header session s (storage, ok meta) = record {
  server = record { storage = storage; sessions = remove_session header.session_id s.sessions };
  completed = some (header.session_id, session.file_id, meta.hash);
  answer = reply (upload_response true meta.hash []);
}
upload_saved text header session s (storage, err e) = record {
  server = record s { storage = storage };
  completed = none;
  answer = reply (upload_response false [] (codes "failed to save file: " ++ text e));
}
upload_saved text header session s (storage, panicked) = record {
  server = record s { storage = storage };
  completed = none;
  answer = crash;
}

module _ (sum : Bytes → Bytes) (fails : Call → Bool) (text : Error → Bytes) (now : ℕ) where
  -- `handleUpload` from the parsed header on.
  unfoldable pub upload_body :
      (ℕ → ℕ × SessionManager) → StreamHeader → Bytes → StreamServer → Handled
  upload_body view header body s = elim (await_session view header.session_id 10 0) [
    | none ↦ unchanged s (reply (upload_response false [] (codes "invalid or expired session")))
    | some session ↦ upload_saved text header session s (
        save_file sum fails now session.file_id session.filename session.content_type
          (limited header.file_size body) s.storage)
  ]

  unfoldable pub handle_upload : (ℕ → ℕ × SessionManager) → ℕ → Bytes → StreamServer → Handled
  unfolding upload_body
  handle_upload view first incoming s = elim (read_full 63 incoming) [
    | none ↦ unchanged s silence
    | some (buf, body) ↦ upload_body view (parse_header (first ∷ buf)) body s
  ]

-- The loop that writes the file, a buffer of `size` bytes at a time. The fuel is the length of the
-- file, as no buffer but the last is empty.
unfoldable pub send_loop : ℕ → ℕ → Bytes → List Bytes
send_loop size zero content = []
send_loop size (suc fuel) [] = []
send_loop size (suc fuel) (b ∷ bs) = take size (b ∷ bs) ∷ send_loop size fuel (drop size (b ∷ bs))

abbrev pub concat : List Bytes → Bytes
concat [] = []
concat (b ∷ bs) = b ++ concat bs

abbrev pub download_header : Bytes → FileMetadata → StreamHeader
download_header hash meta = record {
  magic = magic_download;
  session_id = take 36 hash;
  file_size = meta.size;
  chunk_size = default_chunk_size;
}

-- The rest of `handleDownload` once `GetFile` has returned; `hash[:36]` panics on a shorter hash.
unfoldable pub download_found : (Error → Bytes) → Bytes → Result (Bytes × FileMetadata) → Reply
unfolding send_loop
download_found text hash (ok (content, meta)) =
    if ltb (length hash) 36
    then crash
    else reply (
        encode_header (download_header hash meta)
        ++ concat (send_loop default_chunk_size (length content) content))
download_found text hash (err e) = reply (download_error (codes "file not found: " ++ text e))
download_found text hash panicked = crash

unfoldable pub handle_download : (Error → Bytes) → Bytes → StreamServer → Reply
unfolding download_found
handle_download text incoming s = elim (read_full 64 incoming) [
  | none ↦ silence
  | some (buf, rest) ↦ download_found text (trim_null buf) (get_file (trim_null buf) s.storage)
]

-- `handleConnection`: the magic byte chooses.
unfoldable pub handle_connection :
    (Bytes → Bytes)
    → (Call → Bool)
    → (Error → Bytes)
    → ℕ
    → (ℕ → ℕ × SessionManager)
    → Bytes
    → StreamServer
    → Handled
handle_connection sum fails text now view [] s = unchanged s silence
handle_connection sum fails text now view (magic ∷ incoming) s =
    if magic == magic_upload
    then handle_upload sum fails text now view magic incoming s
    else if magic == magic_download
    then unchanged s (handle_download text incoming s)
    else unchanged s silence
