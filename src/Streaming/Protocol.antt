-- ===== src/Streaming/Protocol.antt =====
-- backend/dfs/streaming/protocol.go: the binary headers of the streaming protocol.
--
-- A reader is the bytes that it has left. An int64 or int32 is its bit pattern, below 2 ^ 64 or
-- 2 ^ 32: the conversions between signed and unsigned keep the pattern.
pub mod Words
pub mod RoundTrip
use distributed_file_system.Prelude.{
  ℕ, zero, suc, ◌+◌, ◌-◌, ◌*◌, ◌/◌, ◌%◌, ◌^◌, Bool, true, false, not, ◌&&◌, List, [], ◌∷◌, ◌++◌,
  Option, none, some, Bytes, length, take, drop, replicate, get_or, ltb, if◌then◌else◌, ◌==◌,
  nat_eq,
}

abbrev pub header_size : ℕ
header_size = 64

abbrev pub default_chunk_size : ℕ
default_chunk_size = 4 * 1024 * 1024

abbrev pub stream_port_offset : ℕ
stream_port_offset = 100

abbrev pub magic_upload : ℕ
magic_upload = 1

abbrev pub magic_download : ℕ
magic_download = 2

abbrev pub download_request_size : ℕ
download_request_size = 65

pub record StreamHeader : Type 0 where
  pub magic : ℕ
  pub session_id : Bytes
  pub file_size : ℕ
  pub chunk_size : ℕ

pub record DownloadRequest : Type 0 where
  pub hash : Bytes

pub data DecodeError : Type 0 where
  short_read invalid_magic : DecodeError

pub data Decoded {ℓ} (A : Type ℓ) : Type ℓ where
  ok : A → Decoded A
  err : DecodeError → Decoded A

-- `copy(buf[i:i+n], src)` into zeroed bytes: what does not fit is dropped, the rest stays zero.
unfoldable pub copy_padded : ℕ → Bytes → Bytes
copy_padded zero src = []
copy_padded (suc n) [] = 0 ∷ copy_padded n []
copy_padded (suc n) (b ∷ bs) = b ∷ copy_padded n bs

-- The low `n` bytes of a word, the highest first: `binary.BigEndian.PutUint64` for 8, `PutUint32`
-- for 4.
unfoldable pub put_big_endian : ℕ → ℕ → Bytes
put_big_endian zero w = []
put_big_endian (suc n) w = (w / 256 ^ n) % 256 ∷ put_big_endian n w

-- The word that the bytes spell: `binary.BigEndian.Uint64` and `Uint32`.
unfoldable pub big_endian_from : ℕ → Bytes → ℕ
big_endian_from acc [] = acc
big_endian_from acc (b ∷ bs) = big_endian_from (acc * 256 + b) bs

unfoldable pub big_endian : Bytes → ℕ
unfolding big_endian_from
big_endian bs = big_endian_from 0 bs

-- `io.ReadFull(r, buf)` for a buffer of `n` bytes: the bytes and what the reader has left.
unfoldable pub read_full : ℕ → Bytes → Option (Bytes × Bytes)
read_full n r = if ltb (length r) n then none else some (take n r, drop n r)

-- The loop of `trimNull` runs from the end: the last byte that is not zero ends the text.
unfoldable pub trim_null : Bytes → Bytes
trim_null [] = []
trim_null (b ∷ bs) = elim (trim_null bs) [
  | [] ↦ if b == 0 then [] else b ∷ []
  | c ∷ cs ↦ b ∷ c ∷ cs
]

-- `buf[i:j]`
abbrev pub slice : ℕ → ℕ → Bytes → Bytes
slice i j buf = take (j - i) (drop i buf)

unfoldable pub encode_header : StreamHeader → Bytes
encode_header h =
    let session = if ltb 36 (length h.session_id) then take 36 h.session_id else h.session_id in
    h.magic
    ∷ (copy_padded 36 session
        ++ (put_big_endian 8 h.file_size ++ (put_big_endian 4 h.chunk_size ++ replicate 15 0)))

-- The header that 64 bytes spell.
unfoldable pub parse_header : Bytes → StreamHeader
parse_header buf = record {
  magic = get_or buf 0 0;
  session_id = trim_null (slice 1 37 buf);
  file_size = big_endian (slice 37 45 buf);
  chunk_size = big_endian (slice 45 49 buf);
}

unfoldable pub decode_header : Bytes → Decoded (StreamHeader × Bytes)
decode_header r = elim (read_full header_size r) [
  | none ↦ err short_read
  | some (buf, rest) ↦
      let header = parse_header buf in
      if not (header.magic == magic_upload) && not (header.magic == magic_download)
      then err invalid_magic
      else ok (header, rest)
]

unfoldable pub encode_download_request : DownloadRequest → Bytes
encode_download_request q = magic_download ∷ copy_padded 64 q.hash

unfoldable pub decode_download_request : Bytes → Decoded (DownloadRequest × Bytes)
decode_download_request r = elim (read_full download_request_size r) [
  | none ↦ err short_read
  | some (buf, rest) ↦
      if not (get_or buf 0 0 == magic_download)
      then err invalid_magic
      else ok (record { hash = trim_null (slice 1 65 buf) }, rest)
]
