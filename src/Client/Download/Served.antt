-- ===== src/Client/Download/Served.antt =====
-- Downloads of backend/dfs/client/master_client.go from the stream servers of
-- backend/dfs/streaming/stream.go, and of what the client has uploaded.
use distributed_file_system.Prelude.{
  ℕ, ◌≤◌, ◌<◌, ◌^◌, ◌≡◌, ◌≢◌, ◌⊎◌, inl, inr, refl, ap, sym, ◌∙◌, Bool, true, false, not, ◌&&◌, List,
  [], ◌++◌, none, Bytes, length, take_short, lt→ltb, ltb, ◌==◌, nat_eq, bytes_eq, bytes_beq_iff,
  All, arith,
}
use distributed_file_system.Common.Types.{NodeId, StreamUploadReadyResponse}
use distributed_file_system.Storage.{FileMetadata, Call, Error, ok, get_file}
use distributed_file_system.Streaming.Protocol.{
  StreamHeader, Decoded, decode_header, encode_header, encode_download_request, copy_padded,
}
use distributed_file_system.Streaming.Protocol.RoundTrip.{All-take, decode-encode_header}
use distributed_file_system.Streaming.Session.{SessionManager}
use distributed_file_system.Streaming.Server.{
  StreamServer, handle_connection, handle_download, download_header, concat,
}
use distributed_file_system.Streaming.Server.Transfer.{download}
use distributed_file_system.Client.Upload.{
  StreamUploadSession, UploadResult, done, Opening, Write, wrote, open_session, upload_stream,
  upload_header,
}
use distributed_file_system.Client.Upload.Contents.{append_nil}
use distributed_file_system.Client.Upload.Stored.{
  reply_bytes, served, respond, upload_stream-Stores,
}
use distributed_file_system.Client.Download.{
  Contact, contacted, to_lower, copy, stream_from_storage,
}
use distributed_file_system.Client.Download.Copy.{copied, copy-copied}

ltb_self : (n : ℕ) → ltb n n ≡ false
ltb_self n = ground arith

-- The copy of content that is all there, and whose hash is the expected one.
copied_whole :
    (sum : Bytes → Bytes) (content : Bytes) (ends : Bool)
    → copied sum (sum content) (length content) ends content ≡ (content, none)
copied_whole sum content ends =
    let same : (to_lower (sum content) == to_lower (sum content)) ≡ true =
      (bytes_beq_iff (to_lower (sum content)) (to_lower (sum content))).1 refl in
    rw (ltb_self (length content), take_short (length content) content (omega arith), same) refl

expected_size :
    (expected n size : ℕ)
    → size ≡ n
    → (expected ≡ 0) ⊎ (expected ≡ n)
    → (ltb 0 expected && not (size == expected)) ≡ false
expected_size expected n size e (inl f) = ground arith
expected_size expected n size e (inr f) = ground arith

module _ (contact : Bytes → Contact) (serve : Bytes → Bytes → Bytes) (reads : ℕ → ℕ) (ends : Bool)
    (sink : ℕ → Bytes → Write) (sum : Bytes → Bytes)
    (takes : (k : ℕ) (chunk : Bytes) → sink k chunk ≡ wrote (length chunk)) where
  -- A node that sends a header and the content is copied from.
  streamed :
      (addr content : Bytes) (expected : ℕ) (h : StreamHeader)
      → contact addr ≡ contacted
      → decode_header (serve addr (encode_download_request (record { hash = sum content })))
        ≡ Decoded.ok (h, content)
      → h.file_size ≡ length content
      → length content < 2 ^ 63
      → (expected ≡ 0) ⊎ (expected ≡ length content)
      → stream_from_storage contact serve reads ends sink sum addr (sum content) expected
        ≡ (content, none)
  unfolding stream_from_storage
  streamed addr content expected h c d size small fits =
      rw
        (
          c,
          d,
          lt→ltb h.file_size (2 ^ 63) (omega arith),
          expected_size expected (length content) h.file_size size fits,
          stream_from_storage,
        )
        (ap (λ n. copy reads ends sink n sum (sum content) content) size
          ∙ copy-copied ends (length content) reads sink takes sum (sum content) content
          ∙ copied_whole sum content ends)

  -- A client that asks a stream server for a hash under which it holds content gets the content.
  -- The size that the master named is the content's or zero.
  from_server :
      (text : Error → Bytes) (fails : Call → Bool) (now : ℕ) (view : ℕ → ℕ × SessionManager)
      (s : StreamServer) (addr content : Bytes) (expected : ℕ) (m : FileMetadata)
      → contact addr ≡ contacted
      → ((request : Bytes)
          → serve addr request
            ≡ reply_bytes (handle_connection sum fails text now view request s).answer)
      → get_file (sum content) s.storage ≡ ok (content, m)
      → m.size ≡ length content
      → length content < 2 ^ 63
      → (expected ≡ 0) ⊎ (expected ≡ length content)
      → All (λ b. b ≢ 0) (sum content)
      → length (sum content) ≡ 64
      → stream_from_storage contact serve reads ends sink sum addr (sum content) expected
        ≡ (content, none)
  unfolding handle_connection encode_download_request
  from_server text fails now view s addr content expected m c served found size small fits clean
        long =
      let sent : serve addr (encode_download_request (record { hash = sum content }))
          ≡ encode_header (download_header (sum content) m) ++ content =
        served (encode_download_request (record { hash = sum content }))
        ∙ ap (λ t. reply_bytes (handle_download text t s))
            (sym (append_nil (copy_padded 64 (sum content))))
        ∙ ap reply_bytes (download text (sum content) content [] m s clean long found) in
      streamed addr content expected _ c
        (ap decode_header sent
          ∙ decode-encode_header (download_header (sum content) m) content (inr refl)
              (All-take 36 (sum content) clean) (omega (arith, size)) (omega arith))
        size small fits

-- What a client has uploaded it downloads again. If an upload against the stream servers of the
-- storage nodes succeeds, for a size below 2 ^ 63, a session identifier of at most 36 bytes that are
-- not zero, and a hash of 64 bytes that are not zero, then a download of the hash that it returned,
-- from any of the nodes and for the uploaded size, gives exactly the bytes that were read, without
-- an error, whatever the sizes of the reads and the end of the connection, if the destination takes all that it is given.
pub download-upload_stream :
    (sum : Bytes → Bytes) (fails : ℕ → Call → Bool) (text : Error → Bytes) (now : ℕ → ℕ)
    (view : ℕ → ℕ → ℕ × SessionManager) (servers : ℕ → StreamServer) (opens : ℕ → Opening)
    (writes : ℕ → ℕ → Write) (file : NodeId) (size : ℕ) (ready : StreamUploadReadyResponse)
    (pieces : List Bytes) (ends : Bool) (s : StreamUploadSession) (r : UploadResult)
    (contact : Bytes → Contact) (serve : Bytes → Bytes → Bytes) (reads : ℕ → ℕ) (closes : Bool)
    (sink : ℕ → Bytes → Write) (k : ℕ) (addr : Bytes)
    → size < 2 ^ 63
    → All (λ b. b ≢ 0) ready.session_id
    → length ready.session_id ≤ 36
    → open_session opens file size ready ≡ done s
    → upload_stream writes (respond sum fails text now view servers) pieces ends s ≡ done r
    → All (λ b. b ≢ 0) (sum (concat pieces))
    → length (sum (concat pieces)) ≡ 64
    → ((j : ℕ) (chunk : Bytes) → sink j chunk ≡ wrote (length chunk))
    → k < length ready.storage_nodes
    → contact addr ≡ contacted
    → ((request : Bytes)
        → serve addr request
          ≡ reply_bytes
              (handle_connection sum
                (fails k)
                text
                (now k)
                (view k)
                request
                (served sum fails text now view servers k (
                  encode_header (upload_header ready.session_id size)
                  ++ concat pieces)).server).answer)
    → stream_from_storage contact serve reads closes sink sum addr r.hash size
      ≡ (concat pieces, none)
download-upload_stream sum fails text now view servers opens writes file size ready pieces ends s r
      contact serve reads closes sink k addr small clean fits begun up bytes long takes within c
      serves =
    let (whole, hash, ids, holds) =
      upload_stream-Stores sum fails text now view servers opens file size ready s r small clean
        fits writes pieces ends begun up bytes long in
    let (m, sized, found) = (holds k within).1 in
    ap (λ h. stream_from_storage contact serve reads closes sink sum addr h size) hash
    ∙ from_server contact serve reads closes sink sum takes text (fails k) (now k) (view k) _ addr
        (concat pieces) size m c serves found sized (omega (arith, whole)) (inr (sym whole)) bytes
        long
