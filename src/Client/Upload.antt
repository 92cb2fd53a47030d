-- ===== src/Client/Upload.antt =====
-- backend/dfs/client/master_client.go: uploads that are streamed to several storage nodes.
--
-- A connection is the bytes that were sent on it. The outcomes of the system calls are parameters:
-- `opens i` for the i-th storage node, `writes k i` for the k-th chunk on the i-th connection, and
-- `responses i sent` for the bytes that come back on it before it ends. A reader is the list of its
-- reads, of which the last may have failed. JSON encoding of a request succeeds.
pub mod Contents
pub mod Opened
pub mod Answers
pub mod Stored
use distributed_file_system.Prelude.{
  ℕ, zero, suc, ◌+◌, Bool, true, false, not, List, [], ◌∷◌, ◌++◌, Option, none, some, Bytes, length,
  take, get_or, get_elem?, if◌then◌else◌, ◌==◌, nat_eq, bytes_eq,
}
use distributed_file_system.Common.Types.{
  NodeId, nil_id, StorageNodeAddr, StreamUploadReadyResponse, stream_upload_init,
}
use distributed_file_system.Common.Messages.{Json, Message, upload_init_json}
use distributed_file_system.Streaming.Protocol.{
  StreamHeader, magic_upload, default_chunk_size, read_full, trim_null, slice, encode_header,
}
use distributed_file_system.Client.{MasterClient, Network, send_request}

pub record Connection : Type 0 where
  pub addr : Bytes
  pub sent : Bytes

pub record StreamUploadSession : Type 0 where
  pub session_id : Bytes
  pub file_id : NodeId
  pub size : ℕ
  pub connections : List Connection
  pub node_ids : List NodeId
  pub bytes_written : ℕ

pub record UploadResult : Type 0 where
  pub hash : Bytes
  pub node_ids : List NodeId

pub data UploadError : Type 0 where
  request_failed bad_response no_storage_nodes read_failed : UploadError
  init_failed connect_failed header_failed : Bytes → UploadError
  write_failed response_unread : ℕ → UploadError
  incomplete_write : ℕ → ℕ → ℕ → UploadError
  incomplete_upload : ℕ → ℕ → UploadError
  storage_error : ℕ → Bytes → UploadError

pub data Outcome {ℓ} (A : Type ℓ) : Type ℓ where
  done : A → Outcome A
  failed : UploadError → Outcome A
  panicked : Outcome A

-- What dialling a node and sending it the header comes to.
pub data Opening : Type 0 where
  unreachable header_refused opened : Opening

-- What `Write` returns: the count that it reports, or an error after some bytes.
pub data Write : Type 0 where
  wrote broken : ℕ → Write

abbrev pub upload_header : Bytes → ℕ → StreamHeader
upload_header session size = record {
  magic = magic_upload;
  session_id = session;
  file_size = size;
  chunk_size = default_chunk_size;
}

abbrev pub push_connection :
    Connection
    → NodeId
    → Outcome (List Connection × List NodeId)
    → Outcome (List Connection × List NodeId)
push_connection c id (done (cs, ids)) = done (c ∷ cs, id ∷ ids)
push_connection c id (failed e) = failed e
push_connection c id panicked = panicked

-- The loop of `InitStreamUpload` over the storage nodes.
unfoldable pub open_connections :
    (ℕ → Opening)
    → StreamHeader
    → ℕ
    → List StorageNodeAddr
    → Outcome (List Connection × List NodeId)
open_connections opens h i [] = done ([], [])
open_connections opens h i (node ∷ nodes) = elim (opens i) [
  | unreachable ↦ failed (connect_failed node.addr)
  | header_refused ↦ failed (header_failed node.addr)
  | opened ↦
      push_connection (record { addr = node.addr; sent = encode_header h }) node.node_id
        (open_connections opens h (i + 1) nodes)
]

abbrev pub new_session :
    Bytes → NodeId → ℕ → Outcome (List Connection × List NodeId) → Outcome StreamUploadSession
new_session id file size (done (cs, ids)) = done (record {
  session_id = id;
  file_id = file;
  size = size;
  connections = cs;
  node_ids = ids;
  bytes_written = 0;
})
new_session id file size (failed e) = failed e
new_session id file size panicked = panicked

-- `InitStreamUpload` from the answer of the master on.
unfoldable pub open_session :
    (ℕ → Opening) → NodeId → ℕ → StreamUploadReadyResponse → Outcome StreamUploadSession
unfolding open_connections
open_session opens file size ready =
    if not ready.success then failed (init_failed ready.error) else elim ready.storage_nodes [
      | [] ↦ failed no_storage_nodes
      | n ∷ ns ↦
          new_session ready.session_id file size
            (open_connections opens (upload_header ready.session_id size) 0 (n ∷ ns))
    ]

-- `InitStreamUpload` once the request was made.
unfoldable pub answered_session :
    Json → (ℕ → Opening) → NodeId → ℕ → Option Message → Outcome StreamUploadSession
unfolding open_session
answered_session json opens file size none = failed request_failed
answered_session json opens file size (some m) = elim (json.upload_ready m.payload) [
  | none ↦ failed bad_response
  | some ready ↦ open_session opens file size ready
]

module _ (net : Network) (json : Json) (opens : ℕ → Opening) (request_id : Bytes) where
  unfoldable pub init_stream_upload :
      NodeId → Bytes → Bytes → ℕ → ℕ → MasterClient → ℕ × MasterClient × Outcome StreamUploadSession
  unfolding answered_session
  init_stream_upload file filename content_type size i c =
      let (i', c', r) =
        send_request net json
          (record {
            kind = stream_upload_init;
            from = c.client_id;
            to = nil_id;
            payload = upload_init_json (record {
              request_id = request_id;
              file_id = file;
              filename = filename;
              content_type = content_type;
              size = size;
            });
          })
          i c in
      (i', c', answered_session json opens file size r)

abbrev pub send_bytes : Bytes → Connection → Connection
send_bytes chunk c = record c { sent = c.sent ++ chunk }

-- One round of the loop of `WriteChunk`.
unfoldable pub write_one : Write → ℕ → Bytes → Connection → Connection × Option UploadError
write_one (broken n) i chunk c = (send_bytes (take n chunk) c, some (write_failed i))
write_one (wrote n) i chunk c =
    if not (n == length chunk)
    then (send_bytes (take n chunk) c, some (incomplete_write i n (length chunk)))
    else (send_bytes chunk c, none)

-- The loop of `WriteChunk` over the connections.
unfoldable pub write_loop :
    (ℕ → Write) → Bytes → ℕ → List Connection → List Connection × Option UploadError
write_loop writes chunk i [] = ([], none)
write_loop writes chunk i (c ∷ cs) =
    let r = write_one (writes i) i chunk c in
    elim r.1 [
      | some e ↦ (r.0 ∷ cs, some e)
      | none ↦
          (r.0 ∷ (write_loop writes chunk (i + 1) cs).0, (write_loop writes chunk (i + 1) cs).1)
    ]

unfoldable pub write_chunk :
    (ℕ → Write) → Bytes → StreamUploadSession → StreamUploadSession × Option UploadError
unfolding write_loop
write_chunk writes chunk s =
    let r = write_loop writes chunk 0 s.connections in
    elim r.1 [
      | some e ↦ (record s { connections = r.0 }, some e)
      | none ↦
          (record s { connections = r.0; bytes_written = s.bytes_written + length chunk }, none)
    ]

-- The variables of the loop of `Finalize`.
pub record Collected : Type 0 where
  pub hash : Bytes
  pub first_error : Option UploadError
  pub successful_nodes : List NodeId

abbrev pub first : Option UploadError → UploadError → Option UploadError
first none e = some e
first (some d) e = some d

unfoldable pub collect_one : List NodeId → ℕ → Option (Bytes × Bytes) → Collected → Option Collected
collect_one ids i none r = some (record r { first_error = first r.first_error (response_unread i) })
collect_one ids i (some (resp, rest)) r =
    if not (get_or resp 0 0 == 1)
    then some (record r {
      first_error = first r.first_error (storage_error i (trim_null (slice 65 321 resp)));
    })
    else elim (get_elem? ids i) [
      | none ↦ none
      | some id ↦ some (record r {
        hash = if r.hash == [] then trim_null (slice 1 65 resp) else r.hash;
        successful_nodes = r.successful_nodes ++ id ∷ [];
      })
    ]

-- The loop of `Finalize`: `none` if the index of a node's identifier is out of range.
unfoldable pub collect :
    (ℕ → Bytes → Bytes) → List NodeId → ℕ → List Connection → Collected → Option Collected
collect responses ids i [] r = some r
collect responses ids i (c ∷ cs) r =
    elim (collect_one ids i (read_full 321 (responses i c.sent)) r) [
      | none ↦ none
      | some r' ↦ collect responses ids (i + 1) cs r'
    ]

abbrev pub nothing_collected : Collected
nothing_collected = record { hash = []; first_error = none; successful_nodes = [] }

unfoldable pub finish : Option Collected → Outcome UploadResult
finish none = panicked
finish (some r) = elim r.first_error [
  | some e ↦ failed e
  | none ↦ done (record { hash = r.hash; node_ids = r.successful_nodes })
]

unfoldable pub finalize : (ℕ → Bytes → Bytes) → StreamUploadSession → Outcome UploadResult
unfolding collect finish
finalize responses s =
    if not (s.bytes_written == s.size)
    then failed (incomplete_upload s.bytes_written s.size)
    else finish (collect responses s.node_ids 0 s.connections nothing_collected)

unfoldable pub close : StreamUploadSession → StreamUploadSession
close s = record s { connections = [] }

-- The loop of `UploadFileStream` over the reads.
unfoldable pub stream_loop :
    (ℕ → ℕ → Write)
    → ℕ
    → List Bytes
    → StreamUploadSession
    → StreamUploadSession × Option UploadError
unfolding write_chunk
stream_loop writes k [] s = (s, none)
stream_loop writes k ([] ∷ pieces) s = stream_loop writes (k + 1) pieces s
stream_loop writes k ((b ∷ bs) ∷ pieces) s = elim (write_chunk (writes k) (b ∷ bs) s).1 [
  | some e ↦ ((write_chunk (writes k) (b ∷ bs) s).0, some e)
  | none ↦ stream_loop writes (k + 1) pieces (write_chunk (writes k) (b ∷ bs) s).0
]

-- `UploadFileStream` once the session is open; `ends` tells whether the reader ended without an
-- error.
unfoldable pub upload_stream :
    (ℕ → ℕ → Write)
    → (ℕ → Bytes → Bytes)
    → List Bytes
    → Bool
    → StreamUploadSession
    → Outcome UploadResult
unfolding stream_loop finalize
upload_stream writes responses pieces ends s = elim (stream_loop writes 0 pieces s).1 [
  | some e ↦ failed e
  | none ↦
      if not ends then failed read_failed else finalize responses (stream_loop writes 0 pieces s).0
]

unfoldable pub upload_file_stream :
    Network
    → Json
    → (ℕ → Opening)
    → (ℕ → ℕ → Write)
    → (ℕ → Bytes → Bytes)
    → Bytes
    → NodeId
    → Bytes
    → Bytes
    → ℕ
    → List Bytes
    → Bool
    → ℕ
    → MasterClient
    → ℕ × MasterClient × Outcome UploadResult
unfolding upload_stream
upload_file_stream net json opens writes responses request_id file filename content_type size pieces
      ends i c =
    let (i', c', r) =
      init_stream_upload net json opens request_id file filename content_type size i c in
    (
      i',
      c',
      elim r [
        | failed e ↦ failed e
        | panicked ↦ panicked
        | done s ↦ upload_stream writes responses pieces ends s
      ],
    )
