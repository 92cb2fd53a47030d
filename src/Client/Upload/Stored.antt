-- ===== src/Client/Upload/Stored.antt =====
-- What the storage nodes hold once an upload of backend/dfs/client/master_client.go to the stream
-- servers of backend/dfs/streaming/stream.go has succeeded.
use distributed_file_system.Prelude.{
  ℕ, zero, suc, ◌+◌, ◌≤◌, ◌<◌, ◌^◌, ◌≡◌, ◌≢◌, inl, inr, refl, ap, sym, ◌∙◌, subst, Bool, true,
  false, List, [], ◌∷◌, ◌++◌, Bytes, length, length-append, length-replicate, take, take_all,
  take_short, replicate, map, lt→ltb, bytes_eq, bytes_beq_iff, All, arith, Option-cases,
}
use distributed_file_system.Common.Types.{NodeId, StorageNodeAddr, StreamUploadReadyResponse}
use distributed_file_system.Storage.{
  LocalStorage, FileMetadata, Call, Error, Result, ok, err, panicked, save_file, get_file,
}
use distributed_file_system.Storage.Files.{get_file-save_file}
use distributed_file_system.Streaming.Protocol.{
  StreamHeader, trim_null, slice, copy_padded, encode_header,
}
use distributed_file_system.Streaming.Protocol.Words.{trim_null-copy_padded, length-copy_padded}
use distributed_file_system.Streaming.Session.{UploadSession, SessionManager}
use distributed_file_system.Streaming.Server.{
  StreamServer, Reply, silence, reply, crash, Handled, upload_response, await_session, limited,
  upload_saved, upload_body, handle_connection, concat,
}
use distributed_file_system.Streaming.Server.Transfer.{handle_connection-upload_body}
use distributed_file_system.Client.Upload.{
  Connection, StreamUploadSession, UploadResult, done, Opening, Write, upload_header, send_bytes,
  open_session, upload_stream,
}
use distributed_file_system.Client.Upload.Contents.{extended}
use distributed_file_system.Client.Upload.Opened.{opened_connection, open_session-done}
use distributed_file_system.Client.Upload.Answers.{
  Finalizes, Confirms, AllConfirm, first_hash, upload_stream-Finalizes,
}

-- What the client reads of a reply.
abbrev pub reply_bytes : Reply → Bytes
reply_bytes silence = []
reply_bytes (reply bs) = bs
reply_bytes crash = []

nothing-Confirms : ¬ Confirms []
nothing-Confirms c = omega (arith, c.0)

upload_response-not-Confirms :
    (hash message : Bytes) → ¬ Confirms (upload_response false hash message)
unfolding upload_response
upload_response-not-Confirms hash message c = omega (arith, c.1)

-- The server has answered an upload with the hash of the content, and a read of the hash gives it,
-- with its size.
abbrev pub Stores : (Bytes → Bytes) → Bytes → Handled → Type 0
Stores sum content x =
    (x.answer ≡ reply (upload_response true (sum content) []))
    × ((m : FileMetadata) × (m.size ≡ length content)
        × (get_file (sum content) x.server.storage ≡ ok (content, m)))

module _ (sum : Bytes → Bytes) (fails : Call → Bool) (text : Error → Bytes) (now : ℕ)
    (view : ℕ → ℕ × SessionManager) (h : StreamHeader) (body : Bytes) (s : StreamServer) where
  abbrev Holds : Handled → Type 0
  Holds = Stores sum (limited h.file_size body)

  saved-Holds :
      (session : UploadSession) (r : LocalStorage × Result FileMetadata)
      → r
        ≡ save_file sum fails now session.file_id session.filename session.content_type
            (limited h.file_size body)
            s.storage
      → Confirms (reply_bytes (upload_saved text h session s r).answer)
      → Holds (upload_saved text h session s r)
  unfolding upload_saved
  saved-Holds session (t, ok m) e c =
      let read =
        get_file-save_file sum fails now session.file_id session.filename session.content_type
          (limited h.file_size body) s.storage m (ap (λ r. r.1) (sym e)) in
      (
        ap (λ x. reply (upload_response true x.hash [])) read.1,
        (
          m,
          ap (λ x. x.size) read.1,
          ap (λ r. get_file (sum (limited h.file_size body)) r.0) e ∙ read.0,
        ),
      )
  saved-Holds session (t, err d) e c = absurd (upload_response-not-Confirms [] _ c)
  saved-Holds session (t, panicked) e c = absurd (nothing-Confirms c)

  upload_body-Holds :
      Confirms (reply_bytes (upload_body sum fails text now view h body s).answer)
      → Holds (upload_body sum fails text now view h body s)
  unfolding upload_body
  upload_body-Holds c = elim (Option-cases (await_session view h.session_id 10 0)) [
    | inl e ↦ absurd (upload_response-not-Confirms [] _ (rw (e, upload_body) at c))
    | inr (session, e) ↦ rw (e, upload_body) (saved-Holds session _ refl (rw (e, upload_body) at c))
  ]

limited_whole :
    (size : ℕ) (body : Bytes) → size < 2 ^ 63 → length body ≡ size → limited size body ≡ body
unfolding limited
limited_whole size body small whole =
    rw (lt→ltb size (2 ^ 63) small, limited) (take_short size body (omega arith))

-- The connections of a session that was opened to some nodes, once content was sent on each.
abbrev pub connections : StreamHeader → Bytes → List StorageNodeAddr → List Connection
connections h content nodes = map (send_bytes content) (map (opened_connection h) nodes)

take_ids :
    (h : StreamHeader) (content : Bytes) (nodes : List StorageNodeAddr)
    → take (length (connections h content nodes)) (map (λ n. n.node_id) nodes)
      ≡ map (λ n. n.node_id) nodes
take_ids h content [] = refl
take_ids h content (n ∷ ns) = ap (◌∷◌ n.node_id) (take_ids h content ns)

-- The hash that a response of success names.
response_hash :
    (hash : Bytes)
    → All (λ b. b ≢ 0) hash
    → length hash ≡ 64
    → trim_null (slice 1 65 (take 321 (upload_response true hash []))) ≡ hash
unfolding upload_response
response_hash hash clean long =
    let short : length (upload_response true hash []) ≤ 321 = omega (
      arith,
      length-append (copy_padded 64 hash) (replicate 256 0),
      length-copy_padded 64 hash,
      length-replicate {A = ℕ} 256 0,
    ) in
    ap (λ t. trim_null (slice 1 65 t)) (take_short 321 (upload_response true hash []) short)
    ∙ ap trim_null
        (take_all (copy_padded 64 hash) (replicate 256 0) 64 (sym (length-copy_padded 64 hash)))
    ∙ trim_null-copy_padded 64 hash clean
    ∙ take_short 64 hash (omega arith)

module _ (responses : ℕ → Bytes → Bytes) (h : StreamHeader) (content : Bytes) where
  Confirms-at :
      (i k : ℕ) (nodes : List StorageNodeAddr)
      → AllConfirm responses i (connections h content nodes)
      → k < length nodes
      → Confirms (responses (i + k) (encode_header h ++ content))
  Confirms-at i k [] a l = absurd (omega arith)
  Confirms-at i zero (n ∷ ns) a l =
      subst (λ j. Confirms (responses j (encode_header h ++ content))) (omega arith) a.0
  Confirms-at i (suc k) (n ∷ ns) a l =
      subst (λ j. Confirms (responses j (encode_header h ++ content))) (omega arith)
        (Confirms-at (i + 1) k ns a.1 (omega arith))

  Confirms-each :
      (k : ℕ) (nodes : List StorageNodeAddr)
      → AllConfirm responses 0 (connections h content nodes)
      → k < length nodes
      → Confirms (responses k (encode_header h ++ content))
  Confirms-each k nodes a l =
      subst (λ j. Confirms (responses j (encode_header h ++ content))) (omega arith)
        (Confirms-at 0 k nodes a l)

  module _ (hash : Bytes) (some_hash : hash ≢ [])
      (named : (i : ℕ)
        → Confirms (responses i (encode_header h ++ content))
        → trim_null (slice 1 65 (take 321 (responses i (encode_header h ++ content)))) ≡ hash) where
    first_hash_kept :
        (i : ℕ) (nodes : List StorageNodeAddr)
        → first_hash responses i (connections h content nodes) hash ≡ hash
    first_hash_kept i [] = refl
    first_hash_kept i (n ∷ ns) =
        ap (first_hash responses (i + 1) (connections h content ns))
          (ground (arith, bytes_beq_iff hash []))
        ∙ first_hash_kept (i + 1) ns

    first_hash_named :
        (i : ℕ) (n : StorageNodeAddr) (ns : List StorageNodeAddr)
        → AllConfirm responses i (connections h content (n ∷ ns))
        → first_hash responses i (connections h content (n ∷ ns)) [] ≡ hash
    first_hash_named i n ns a =
        ap (first_hash responses (i + 1) (connections h content ns)) (named i a.0)
        ∙ first_hash_kept (i + 1) ns

module _ (sum : Bytes → Bytes) (fails : ℕ → Call → Bool) (text : Error → Bytes) (now : ℕ → ℕ)
    (view : ℕ → ℕ → ℕ × SessionManager) (servers : ℕ → StreamServer) where
  -- What the i-th storage node makes of the bytes that it is sent.
  abbrev pub served : ℕ → Bytes → Handled
  served i sent = handle_connection sum (fails i) text (now i) (view i) sent (servers i)

  abbrev pub respond : ℕ → Bytes → Bytes
  respond i sent = reply_bytes (served i sent).answer

  module _ (opens : ℕ → Opening) (file : NodeId) (size : ℕ) (ready : StreamUploadReadyResponse)
      (s : StreamUploadSession) (r : UploadResult) (small : size < 2 ^ 63)
      (clean : All (λ b. b ≢ 0) ready.session_id) (fits : length ready.session_id ≤ 36) where
    abbrev header : StreamHeader
    header = upload_header ready.session_id size

    served-Stores :
        (i : ℕ) (content : Bytes)
        → length content ≡ size
        → Confirms (respond i (encode_header header ++ content))
        → Stores sum content (served i (encode_header header ++ content))
    served-Stores i content whole c =
        let reached : served i (encode_header header ++ content)
            ≡ upload_body sum (fails i) text (now i) (view i) header content (servers i) =
          handle_connection-upload_body sum (fails i) text (now i) (view i) header content
            (servers i) refl clean fits (omega arith) (omega arith) in
        subst (Stores sum content) (sym reached) (
          subst
            (λ t.
              Stores sum t
                (upload_body sum (fails i) text (now i) (view i) header content (servers i)))
            (limited_whole size content small whole)
            (upload_body-Holds sum (fails i) text (now i) (view i) header content (servers i)
              (subst (λ x. Confirms (reply_bytes x.answer)) reached c)))

    names_hash :
        (content : Bytes)
        → length content ≡ size
        → All (λ b. b ≢ 0) (sum content)
        → length (sum content) ≡ 64
        → (i : ℕ) → Confirms (respond i (encode_header header ++ content))
        → trim_null (slice 1 65 (take 321 (respond i (encode_header header ++ content))))
          ≡ sum content
    names_hash content whole bytes long i c =
        ap (λ t. trim_null (slice 1 65 (take 321 (reply_bytes t))))
          (served-Stores i content whole c).0
        ∙ response_hash (sum content) bytes long

    -- A session that was opened, has sent content and can be finalized.
    pub Finalizes-Stores :
        (content : Bytes)
        → open_session opens file size ready ≡ done s
        → Finalizes respond (extended content s) r
        → All (λ b. b ≢ 0) (sum content)
        → length (sum content) ≡ 64
        → (length content ≡ size)
          × (r.hash ≡ sum content)
          × (r.node_ids ≡ map (λ n. n.node_id) ready.storage_nodes)
          × ((k : ℕ)
              → k < length ready.storage_nodes
              → Stores sum content (served k (encode_header header ++ content)))
    Finalizes-Stores content begun final bytes long =
        let (n, ns, nodes, same) = open_session-done opens file size ready s begun in
        let (counted, all, hash, ids) =
          subst (λ t. Finalizes respond (extended content t) r) same final in
        let whole : length content ≡ size = omega (arith, counted) in
        (
          whole,
          hash
              ∙ first_hash_named respond header content (sum content)
                  (λ e. omega (arith, long, ap length e)) (names_hash content whole bytes long) 0 n
                  ns all,
          ids ∙ take_ids header content (n ∷ ns) ∙ ap (map (λ m. m.node_id)) (sym nodes),
          λ k l. served-Stores k content whole (
              Confirms-each respond header content k (n ∷ ns) all (omega (arith, ap length nodes))),
        )

    -- An upload that succeeds against the stream servers of the storage nodes, for a size below
    -- 2 ^ 63, a session identifier of at most 36 bytes that are not zero, and a hash of 64 bytes
    -- that are not zero: what was read is of the announced size, the result has its hash and the
    -- identifiers of all nodes that the master named, and every one of these nodes has answered
    -- with the hash and gives back the content for it.
    pub upload_stream-Stores :
        (writes : ℕ → ℕ → Write) (pieces : List Bytes) (ends : Bool)
        → open_session opens file size ready ≡ done s
        → upload_stream writes respond pieces ends s ≡ done r
        → All (λ b. b ≢ 0) (sum (concat pieces))
        → length (sum (concat pieces)) ≡ 64
        → (length (concat pieces) ≡ size)
          × (r.hash ≡ sum (concat pieces))
          × (r.node_ids ≡ map (λ n. n.node_id) ready.storage_nodes)
          × ((k : ℕ)
              → k < length ready.storage_nodes
              → Stores sum (concat pieces) (served k (encode_header header ++ concat pieces)))
    upload_stream-Stores writes pieces ends begun up =
        Finalizes-Stores (concat pieces) begun
          (upload_stream-Finalizes writes respond pieces ends s r up).1
