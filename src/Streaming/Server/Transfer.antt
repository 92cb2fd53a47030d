-- ===== src/Streaming/Server/Transfer.antt =====
-- What a client that uploads to the stream server of backend/dfs/streaming/stream.go downloads again.
use distributed_file_system.Prelude.{
  ℕ, zero, suc, ◌≤◌, ◌<◌, ◌^◌, ◌≡◌, ◌≢◌, refl, sym, ◌∙◌, ap, Bool, true, false, [], ◌∷◌, ◌++◌, some,
  Bytes, length, take, drop, ltb, arith, take-append-drop, length-drop, take_short, All, lt→ltb,
}
use distributed_file_system.Storage.{
  LocalStorage, FileMetadata, Call, Error, Result, ok, err, panicked, save_file, get_file,
}
use distributed_file_system.Storage.Files.{get_file-save_file}
use distributed_file_system.Streaming.Protocol.{
  StreamHeader, default_chunk_size, magic_upload, read_full, parse_header, copy_padded,
  encode_header, encode_download_request,
}
use distributed_file_system.Streaming.Protocol.Words.{trim_null-copy_padded, length-copy_padded}
use distributed_file_system.Streaming.Protocol.RoundTrip.{
  read_full-append, length-encode_header, parse-encode,
}
use distributed_file_system.Streaming.Session.{UploadSession, SessionManager}
use distributed_file_system.Streaming.Server.{
  StreamServer, reply, Handled, upload_response, await_session, limited, upload_saved, upload_body,
  handle_upload, send_loop, concat, download_header, download_found, handle_download,
  handle_connection,
}

concat-send_loop :
    (size fuel : ℕ) (content : Bytes)
    → 0 < size
    → length content ≤ fuel
    → concat (send_loop size fuel content) ≡ content
unfolding send_loop
concat-send_loop size zero [] p h = refl
concat-send_loop size zero (b ∷ bs) p h = absurd (omega arith)
concat-send_loop size (suc fuel) [] p h = refl
concat-send_loop zero (suc fuel) (b ∷ bs) p h = absurd (omega arith)
concat-send_loop (suc n) (suc fuel) (b ∷ bs) p h =
    ap (λ t. take (suc n) (b ∷ bs) ++ t)
      (concat-send_loop (suc n) fuel (drop n bs) p (omega (arith, length-drop n bs)))
    ∙ take-append-drop (suc n) (b ∷ bs)

-- The 63 bytes of a header that follow the magic byte.
abbrev header_rest : StreamHeader → Bytes
header_rest h = drop 1 (encode_header h)

encode_header-cons : (h : StreamHeader) → encode_header h ≡ h.magic ∷ header_rest h
unfolding encode_header
encode_header-cons h = refl

parse_upload :
    (h : StreamHeader) (body : Bytes)
    → All (λ b. b ≢ 0) h.session_id
    → length h.session_id ≤ 36
    → h.file_size < 2 ^ 64
    → h.chunk_size < 2 ^ 32
    → (read_full 63 (header_rest h ++ body) ≡ some (header_rest h, body))
      × (parse_header (h.magic ∷ header_rest h) ≡ h)
parse_upload h body clean fits size chunk = (
  read_full-append 63 (header_rest h) body
      (omega (arith, length-encode_header h, ap length (encode_header-cons h))),
  ap parse_header (sym (encode_header-cons h))
      ∙ parse-encode h clean size chunk
      ∙ ap (λ i. record h { session_id = i }) (take_short 36 h.session_id fits),
)

not_short : (n : ℕ) → 36 ≤ n → ltb n 36 ≡ false
not_short n h = ground arith

sent :
    (text : Error → Bytes) (hash content : Bytes) (m : FileMetadata)
    → 36 ≤ length hash
    → download_found text hash (ok (content, m))
      ≡ reply (encode_header (download_header hash m) ++ content)
unfolding download_found
sent text hash content m h =
    rw
      (
        not_short (length hash) h,
        concat-send_loop default_chunk_size (length content) content (omega arith) (omega arith),
      )
      refl

-- A client that sends the download request for a hash is sent the file.
pub download :
    (text : Error → Bytes) (hash content rest : Bytes) (m : FileMetadata) (s : StreamServer)
    → All (λ b. b ≢ 0) hash
    → length hash ≡ 64
    → get_file hash s.storage ≡ ok (content, m)
    → handle_download text (copy_padded 64 hash ++ rest) s
      ≡ reply (encode_header (download_header hash m) ++ content)
unfolding handle_download
download text hash content rest m s clean long found =
    rw
      (
        read_full-append 64 (copy_padded 64 hash) rest (sym (length-copy_padded 64 hash)),
        trim_null-copy_padded 64 hash clean,
        take_short 64 hash (omega arith),
        found,
        handle_download,
      )
      (sent text hash content m (omega arith))

module _ (sum : Bytes → Bytes) (fails : Call → Bool) (text : Error → Bytes) (now : ℕ)
    (view : ℕ → ℕ × SessionManager) (h : StreamHeader) (body : Bytes) (s : StreamServer) where
  chosen :
      (first : ℕ) (incoming : Bytes)
      → first ≡ magic_upload
      → handle_connection sum fails text now view (first ∷ incoming) s
        ≡ handle_upload sum fails text now view first incoming s
  unfolding handle_connection
  chosen first incoming e = rw e refl

  parsed_upload :
      (first : ℕ) (incoming buf : Bytes)
      → read_full 63 incoming ≡ some (buf, body)
      → parse_header (first ∷ buf) ≡ h
      → handle_upload sum fails text now view first incoming s
        ≡ upload_body sum fails text now view h body s
  unfolding handle_upload
  parsed_upload first incoming buf p q = rw (p, handle_upload, q) refl

  -- The bytes of an upload reach `handleUpload` as the header and the body that were sent.
  pub handle_connection-upload_body :
      h.magic ≡ magic_upload
      → All (λ b. b ≢ 0) h.session_id
      → length h.session_id ≤ 36
      → h.file_size < 2 ^ 64
      → h.chunk_size < 2 ^ 32
      → handle_connection sum fails text now view (encode_header h ++ body) s
        ≡ upload_body sum fails text now view h body s
  handle_connection-upload_body magic clean fits size chunk =
      let parsed = parse_upload h body clean fits size chunk in
      ap (λ bs. handle_connection sum fails text now view (bs ++ body) s) (encode_header-cons h)
      ∙ chosen h.magic (header_rest h ++ body) magic
      ∙ parsed_upload h.magic (header_rest h ++ body) (header_rest h) parsed.0 parsed.1

module _ (sum : Bytes → Bytes) (fails : Call → Bool) (text : Error → Bytes) (now : ℕ)
    (view : ℕ → ℕ × SessionManager) (h : StreamHeader) (body : Bytes) (s : StreamServer)
    (session : UploadSession) (m : FileMetadata) where
  -- What `SaveFile` does with the body of an upload.
  abbrev pub stored : LocalStorage × Result FileMetadata
  stored =
      save_file sum fails now session.file_id session.filename session.content_type
        (limited h.file_size body) s.storage

  upload_saved-ok :
      (r : LocalStorage × Result FileMetadata)
      → r.1 ≡ ok m
      → ((upload_saved text h session s r).answer ≡ reply (upload_response true m.hash []))
        × ((upload_saved text h session s r).server.storage ≡ r.0)
        × ((upload_saved text h session s r).completed
            ≡ some (h.session_id, session.file_id, m.hash))
  unfolding upload_saved
  upload_saved-ok (t, ok x) q =
      let same : x ≡ m = cc in
      (
        ap (λ y. reply (upload_response true y.hash [])) same,
        refl,
        ap (λ y. some (h.session_id, session.file_id, y.hash)) same,
      )
  upload_saved-ok (t, err e) q = absurd cc
  upload_saved-ok (t, panicked) q = absurd cc

  found_session :
      await_session view h.session_id 10 0 ≡ some session
      → upload_body sum fails text now view h body s ≡ upload_saved text h session s stored
  unfolding upload_body
  found_session p = rw (p, upload_body) refl

  module _ (magic : h.magic ≡ magic_upload) (clean : All (λ b. b ≢ 0) h.session_id)
      (fits : length h.session_id ≤ 36) (size : h.file_size < 2 ^ 64)
      (chunk : h.chunk_size < 2 ^ 32)
      (awaited : await_session view h.session_id 10 0 ≡ some session) where
    abbrev uploaded : Handled
    uploaded = handle_connection sum fails text now view (encode_header h ++ body) s

    uploaded-saved : uploaded ≡ upload_saved text h session s stored
    uploaded-saved =
        handle_connection-upload_body sum fails text now view h body s magic clean fits size chunk
        ∙ found_session awaited

    -- If a valid upload header, with a session identifier of at most 36 bytes that are not zero,
    -- for a session that the server has, is sent before a body, and the body is stored, under a
    -- hash of 64 bytes that are not zero, then the answer is the success response with the hash of
    -- the body up to the announced size, the completion is reported with that hash, and a download
    -- request for the hash that is sent to the server afterwards is answered by the header of the
    -- metadata and by those bytes exactly.
    pub download-upload :
        (rest : Bytes)
        → (All (λ b. b ≢ 0) (sum (limited h.file_size body)))
        → length (sum (limited h.file_size body)) ≡ 64
        → stored.1 ≡ ok m
        → let hash = sum (limited h.file_size body) in
          (uploaded.answer ≡ reply (upload_response true hash []))
          × (uploaded.completed ≡ some (h.session_id, session.file_id, hash))
          × ((handle_connection sum fails text now view
                (encode_download_request (record { hash = hash }) ++ rest)
                uploaded.server).answer
              ≡ reply (encode_header (download_header hash m) ++ limited h.file_size body))
    unfolding handle_connection encode_download_request
    download-upload rest bytes long saved =
        let read =
          get_file-save_file sum fails now session.file_id session.filename session.content_type
            (limited h.file_size body) s.storage m saved in
        let done = upload_saved-ok stored saved in
        let hashed : m.hash ≡ sum (limited h.file_size body) = ap (λ x. x.hash) read.1 in
        (
          ap (λ r. r.answer) uploaded-saved
              ∙ done.0
              ∙ ap (λ x. reply (upload_response true x [])) hashed,
          ap (λ r. r.completed) uploaded-saved
              ∙ done.2
              ∙ ap (λ x. some (h.session_id, session.file_id, x)) hashed,
          download text _ (limited h.file_size body) rest m uploaded.server bytes long
              (ap (get_file _) (ap (λ r. r.server.storage) uploaded-saved ∙ done.1) ∙ read.0),
        )

    -- If a valid upload header for a session that the server has is followed by fewer bytes than
    -- it announces, a size below 2 ^ 63, and these are stored, then the answer is the success
    -- response with the hash of the bytes that came, and the size in the metadata is below the
    -- announced one.
    pub short_upload_succeeds :
        length body < h.file_size
        → h.file_size < 2 ^ 63
        → stored.1 ≡ ok m
        → (uploaded.answer ≡ reply (upload_response true (sum body) [])) × (m.size < h.file_size)
    unfolding limited
    short_upload_succeeds short small saved =
        let all : limited h.file_size body ≡ body =
          rw (lt→ltb h.file_size (2 ^ 63) small, limited)
            (take_short h.file_size body (omega arith)) in
        let read =
          get_file-save_file sum fails now session.file_id session.filename session.content_type
            (limited h.file_size body) s.storage m saved in
        let done = upload_saved-ok stored saved in
        (
          ap (λ r. r.answer) uploaded-saved
              ∙ done.0
              ∙ ap (λ x. reply (upload_response true x [])) (ap (λ x. x.hash) read.1 ∙ ap sum all),
          omega (arith, ap (λ x. x.size) read.1, ap length all),
        )
