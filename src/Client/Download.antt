-- ===== src/Client/Download.antt =====
-- backend/dfs/client/master_client.go: downloads that are streamed from one storage node.
--
-- A connection is the bytes that are still to come on it, and `ends` tells whether they end without
-- an error; the k-th read gives `1 + reads k` bytes, or as many as it asks for or as there are. The
-- destination is the bytes that it was given, and `sink k chunk` is what the k-th write to it comes to.
-- The copy has the announced size as fuel, since each read that is not the last gives a byte.
pub mod Copy
pub mod Served
use distributed_file_system.Prelude.{
  ℕ, zero, suc, ◌+◌, ◌-◌, ◌^◌, Bool, true, false, not, ◌&&◌, ◌||◌, List, [], ◌∷◌, ◌++◌, Option,
  none, some, Bytes, length, take, drop, min, ltb, leb, map, if◌then◌else◌, ◌==◌, nat_eq, bytes_eq,
}
use distributed_file_system.Common.Types.{
  NodeId, nil_id, StreamDownloadReadyResponse, stream_download_init,
}
use distributed_file_system.Common.Messages.{Json, Message, download_init_json}
use distributed_file_system.Streaming.Protocol.{
  DecodeError, Decoded, ok, err, default_chunk_size, decode_header, encode_download_request,
}
use distributed_file_system.Client.{MasterClient, Network, send_request}
use distributed_file_system.Client.Upload.{Write, wrote, broken}

-- The message of a storage node is `none` if none was received.
pub data DownloadError : Type 0 where
  request_failed bad_response connect_failed request_unsent hash_mismatch : DownloadError
  init_failed : Bytes → DownloadError
  bad_header : DecodeError → DownloadError
  storage_error : Option Bytes → DownloadError
  size_mismatch incomplete_download : ℕ → ℕ → DownloadError
  write_failed read_failed : ℕ → DownloadError
  short_write : ℕ → ℕ → ℕ → DownloadError

-- `streamCopier`: what is written, what the hash is of, and what the destination has.
pub record StreamCopier : Type 0 where
  pub written : ℕ
  pub hashed : Bytes
  pub output : Bytes

unfoldable pub process_chunk : Write → Bytes → StreamCopier → StreamCopier × Option DownloadError
process_chunk (broken n) chunk s =
    (record s { output = s.output ++ take n chunk }, some (write_failed s.written))
process_chunk (wrote n) chunk s =
    if not (n == length chunk)
    then (
      record s { output = s.output ++ take n chunk },
      some (short_write s.written n (length chunk)),
    )
    else (
      record {
        written = s.written + length chunk;
        hashed = s.hashed ++ chunk;
        output = s.output ++ chunk;
      },
      none,
    )

-- `strings.ToLower` on ASCII text
abbrev pub lower : ℕ → ℕ
lower b = if leb 65 b && leb b 90 then b + 32 else b

abbrev pub to_lower : Bytes → Bytes
to_lower bs = map lower bs

unfoldable pub verify_hash : (Bytes → Bytes) → Bytes → StreamCopier → Option DownloadError
verify_hash sum expected s =
    if not (to_lower (sum s.hashed) == to_lower expected) then some hash_mismatch else none

-- The rest of `copy` after the loop: what the destination has, and the error.
unfoldable pub conclude :
    (Bytes → Bytes) → Bytes → ℕ → StreamCopier × Option DownloadError → Bytes × Option DownloadError
unfolding verify_hash
conclude sum hash total (s, some e) = (s.output, some e)
conclude sum hash total (s, none) = (
  s.output,
  if not (s.written == total)
      then some (incomplete_download total s.written)
      else verify_hash sum hash s,
)

module _ (reads : ℕ → ℕ) (ends : Bool) (sink : ℕ → Bytes → Write) (total : ℕ) where
  -- How many bytes the next read gives.
  abbrev pub read_size : ℕ → Bytes → StreamCopier → ℕ
  read_size k left s =
      min (min (1 + reads k) (min default_chunk_size (total - s.written))) (length left)

  -- The loop of `copy`, where the deadline of a read can be set.
  unfoldable pub copy_loop : ℕ → ℕ → Bytes → StreamCopier → StreamCopier × Option DownloadError
  unfolding process_chunk
  copy_loop zero k left s = (s, none)
  copy_loop (suc fuel) k left s = if not (ltb s.written total) then (s, none) else elim left [
    | [] ↦ (s, if ends then none else some (read_failed s.written))
    | b ∷ bs ↦
        let n = read_size k (b ∷ bs) s in
        let r = process_chunk (sink k (take n (b ∷ bs))) (take n (b ∷ bs)) s in
        elim r.1 [ some e ↦ r | none ↦ copy_loop fuel (k + 1) (drop n (b ∷ bs)) r.0 ]
  ]

  unfoldable pub copy : (Bytes → Bytes) → Bytes → Bytes → Bytes × Option DownloadError
  unfolding copy_loop conclude
  copy sum hash conn =
      conclude sum hash total
        (copy_loop total 0 conn (record { written = 0; hashed = []; output = [] }))

-- The bytes that `strings.TrimRight` takes off the end of the text of an error.
abbrev pub is_space : ℕ → Bool
is_space b = b == 0 || b == 32 || b == 9 || b == 10 || b == 13

unfoldable pub trim_right : Bytes → Bytes
trim_right [] = []
trim_right (b ∷ bs) = elim (trim_right bs) [
  | [] ↦ if is_space b then [] else b ∷ []
  | c ∷ cs ↦ b ∷ c ∷ cs
]

-- The first read of a connection, into a buffer of 1024 bytes.
unfoldable pub read_storage_error : (ℕ → ℕ) → Bytes → DownloadError
unfolding trim_right
read_storage_error reads [] = storage_error none
read_storage_error reads (b ∷ bs) =
    storage_error (some (trim_right (take (min (1 + reads 0) 1024) (b ∷ bs))))

-- What dialling the storage node and sending it the request comes to.
pub data Contact : Type 0 where
  unreachable unsent contacted : Contact

module _ (contact : Bytes → Contact) (serve : Bytes → Bytes → Bytes) (reads : ℕ → ℕ) (ends : Bool)
    (sink : ℕ → Bytes → Write) (sum : Bytes → Bytes) where
  -- `serve addr` is the bytes that come back from an address for those that are sent to it.
  unfoldable pub stream_from_storage : Bytes → Bytes → ℕ → Bytes × Option DownloadError
  unfolding copy read_storage_error
  stream_from_storage addr hash expected = elim (contact addr) [
    | unreachable ↦ ([], some connect_failed)
    | unsent ↦ ([], some request_unsent)
    | contacted ↦
        elim (decode_header (serve addr (encode_download_request (record { hash = hash })))) [
          | err e ↦ ([], some (bad_header e))
          | ok (header, rest) ↦
              if not (ltb header.file_size (2 ^ 63))
              then ([], some (read_storage_error reads rest))
              else if ltb 0 expected && not (header.file_size == expected)
              then ([], some (size_mismatch expected header.file_size))
              else copy reads ends sink header.file_size sum hash rest
        ]
  ]

  unfoldable pub download_file_stream :
      Network
      → Json
      → Bytes
      → NodeId
      → Bytes
      → ℕ
      → MasterClient
      → ℕ × MasterClient × (Bytes × Option DownloadError)
  unfolding stream_from_storage
  download_file_stream net json request_id file hash i c =
      let (i', c', r) =
        send_request net json
          (record {
            kind = stream_download_init;
            from = c.client_id;
            to = nil_id;
            payload =
                download_init_json
                  (record { request_id = request_id; file_id = file; hash = hash });
          })
          i c in
      (
        i',
        c',
        elim r [
          | none ↦ ([], some request_failed)
          | some m ↦ elim (json.download_ready m.payload) [
            | none ↦ ([], some bad_response)
            | some ready ↦
                if not ready.success
                then ([], some (init_failed ready.error))
                else stream_from_storage ready.storage_addr hash ready.size
          ]
        ],
      )
