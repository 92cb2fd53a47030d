-- ===== src/Streaming/Protocol/RoundTrip.antt =====
-- Decoding undoes encoding, and what the decoders of backend/dfs/streaming/protocol.go refuse.
use distributed_file_system.Prelude.{
  ℕ, zero, suc, ◌^◌, ◌<◌, ◌≤◌, ◌≡◌, ◌≢◌, ◌⊎◌, inl, inr, refl, ap, ◌∙◌, sym, subst, true, false, not,
  ◌&&◌, [], ◌∷◌, ◌++◌, none, some, Bytes, length, length-append, take, drop, take_all, drop_all,
  replicate, get_or, arith, ltb, ltb→lt, if◌then◌else◌, ◌==◌, nat_eq, All, Bool-cases,
}
use mathlib.Core.List.{append_assoc}
use distributed_file_system.Streaming.Protocol.{
  StreamHeader, DownloadRequest, Decoded, ok, err, short_read, invalid_magic, header_size,
  magic_upload, magic_download, copy_padded, put_big_endian, big_endian, read_full, trim_null,
  slice, encode_header, parse_header, decode_header, encode_download_request,
  decode_download_request,
}
use distributed_file_system.Streaming.Protocol.Words.{
  length-put_big_endian, length-copy_padded, big_endian-put, big_endian-put32,
  trim_null-copy_padded,
}

-- Reading the bytes that were written leaves the rest.
pub read_full-append :
    (n : ℕ) (bs rest : Bytes) → n ≡ length bs → read_full n (bs ++ rest) ≡ some (bs, rest)
unfolding read_full
read_full-append n bs rest e =
    ground (arith, length-append bs rest, take_all bs rest n, drop_all bs rest n)

read_full_short : (n : ℕ) (r : Bytes) → length r < n → read_full n r ≡ none
unfolding read_full
read_full_short n r h = ground arith

-- The fields of a header, cut out of the bytes that hold them.
slices :
    (m : ℕ) (c f k z : Bytes)
    → 36 ≡ length c
    → 8 ≡ length f
    → 4 ≡ length k
    → let buf = m ∷ (c ++ (f ++ (k ++ z))) in
      (slice 1 37 buf ≡ c) × (slice 37 45 buf ≡ f) × (slice 45 49 buf ≡ k)
slices m c f k z hc hf hk = (
  take_all c (f ++ (k ++ z)) 36 hc,
  ap (take 8) (drop_all c (f ++ (k ++ z)) 36 hc) ∙ take_all f (k ++ z) 8 hf,
  ap (λ b. take 4 (drop 44 b)) (sym (append_assoc c f (k ++ z)))
      ∙ ap (take 4) (drop_all (c ++ f) (k ++ z) 44 (omega (arith, length-append c f)))
      ∙ take_all k z 4 hk,
)

take_cut : (n : ℕ) (bs : Bytes) → (if ltb n (length bs) then take n bs else bs) ≡ take n bs
take_cut n bs = ground (arith, take_short n bs)
  where
    take_short : (n : ℕ) (bs : Bytes) → length bs ≤ n → take n bs ≡ bs
    take_short zero [] h = refl
    take_short zero (b ∷ bs) h = absurd (omega arith)
    take_short (suc n) [] h = refl
    take_short (suc n) (b ∷ bs) h = ap (◌∷◌ b) (take_short n bs (omega arith))

take-take : (n : ℕ) (bs : Bytes) → take n (take n bs) ≡ take n bs
take-take zero bs = refl
take-take (suc n) [] = refl
take-take (suc n) (b ∷ bs) = ap (◌∷◌ b) (take-take n bs)

pub All-take : (n : ℕ) (bs : Bytes) → All (λ b. b ≢ 0) bs → All (λ b. b ≢ 0) (take n bs)
All-take zero bs a = tt
All-take (suc n) [] a = tt
All-take (suc n) (b ∷ bs) a = (a.0, All-take n bs a.1)

length_layout :
    (m : ℕ) (c f k z : Bytes)
    → 36 ≡ length c
    → 8 ≡ length f
    → 4 ≡ length k
    → 15 ≡ length z
    → length (m ∷ (c ++ (f ++ (k ++ z)))) ≡ 64
length_layout m c f k z hc hf hk hz =
    omega (arith, length-append c (f ++ (k ++ z)), length-append f (k ++ z), length-append k z)

pub length-encode_header : (h : StreamHeader) → length (encode_header h) ≡ header_size
unfolding encode_header
length-encode_header h =
    length_layout h.magic (copy_padded 36 _) (put_big_endian 8 h.file_size)
      (put_big_endian 4 h.chunk_size) (replicate 15 0) (sym (length-copy_padded 36 _))
      (sym (length-put_big_endian 8 h.file_size)) (sym (length-put_big_endian 4 h.chunk_size)) refl

parse_layout :
    (m : ℕ) (c f k z : Bytes)
    → 36 ≡ length c
    → 8 ≡ length f
    → 4 ≡ length k
    → parse_header (m ∷ (c ++ (f ++ (k ++ z)))) ≡ record {
      magic = m;
      session_id = trim_null c;
      file_size = big_endian f;
      chunk_size = big_endian k;
    }
unfolding parse_header
parse_layout m c f k z hc hf hk =
    let (a, b, d) = slices m c f k z hc hf hk in
    λ i. record {
      magic = m;
      session_id = trim_null (a i);
      file_size = big_endian (b i);
      chunk_size = big_endian (d i);
    }

session_field :
    (s : Bytes)
    → All (λ b. b ≢ 0) s
    → trim_null (copy_padded 36 (if ltb 36 (length s) then take 36 s else s)) ≡ take 36 s
session_field s a =
    ap (λ t. trim_null (copy_padded 36 t)) (take_cut 36 s)
    ∙ trim_null-copy_padded 36 (take 36 s) (All-take 36 s a)
    ∙ take-take 36 s

pub parse-encode :
    (h : StreamHeader)
    → All (λ b. b ≢ 0) h.session_id
    → h.file_size < 2 ^ 64
    → h.chunk_size < 2 ^ 32
    → parse_header (encode_header h) ≡ record h { session_id = take 36 h.session_id }
unfolding encode_header
parse-encode h a hf hk =
    parse_layout h.magic (copy_padded 36 _) (put_big_endian 8 h.file_size)
      (put_big_endian 4 h.chunk_size) (replicate 15 0) (sym (length-copy_padded 36 _))
      (sym (length-put_big_endian 8 h.file_size)) (sym (length-put_big_endian 4 h.chunk_size))
    ∙ (λ i. record {
      magic = h.magic;
      session_id = session_field h.session_id a i;
      file_size = big_endian-put h.file_size hf i;
      chunk_size = big_endian-put32 h.chunk_size hk i;
    })

-- What `Encode` writes, `DecodeHeader` reads back and leaves the rest of the stream, for a header
-- with a valid magic byte, sizes in range and a session without null bytes, cut to 36 bytes.
pub decode-encode_header :
    (h : StreamHeader) (rest : Bytes)
    → (h.magic ≡ magic_upload) ⊎ (h.magic ≡ magic_download)
    → All (λ b. b ≢ 0) h.session_id
    → h.file_size < 2 ^ 64
    → h.chunk_size < 2 ^ 32
    → decode_header (encode_header h ++ rest)
      ≡ ok (record h { session_id = take 36 h.session_id }, rest)
unfolding decode_header
decode-encode_header h rest m a hf hk =
    rw
      (
        read_full-append 64 (encode_header h) rest (sym (length-encode_header h)),
        decode_header,
        parse-encode h a hf hk,
      )
      (ground arith)

read_full_long : (n : ℕ) (r : Bytes) → n ≤ length r → read_full n r ≡ some (take n r, drop n r)
unfolding read_full
read_full_long n r h = elim (Bool-cases (ltb (length r) n)) [
  | inl e ↦ absurd (omega (arith, ltb→lt (length r) n e))
  | inr e ↦ rw e
]

magic-parse : (r : Bytes) → (parse_header (take header_size r)).magic ≡ get_or r 0 0
unfolding parse_header
magic-parse [] = refl
magic-parse (b ∷ r) = refl

not_lt : (a b : ℕ) → ltb a b ≡ false → b ≤ a
not_lt a b h = ground arith

magic-cases :
    (m : ℕ)
    → ((m ≡ magic_upload) ⊎ (m ≡ magic_download)) ⊎ (m ≢ magic_upload) × (m ≢ magic_download)
magic-cases m = elim (Bool-cases (m == magic_upload)) [
  | inl e ↦ inl (inl (ground arith))
  | inr e ↦ elim (Bool-cases (m == magic_download)) [
    | inl f ↦ inl (inr (ground arith))
    | inr f ↦ inr (λ p. ground arith, λ p. ground arith)
  ]
]

valid_magic :
    (m : ℕ)
    → (m ≡ magic_upload) ⊎ (m ≡ magic_download)
    → (not (m == magic_upload) && not (m == magic_download)) ≡ false
valid_magic m h = ground arith

other_magic :
    (m : ℕ)
    → m ≢ magic_upload
    → m ≢ magic_download
    → (not (m == magic_upload) && not (m == magic_download)) ≡ true
other_magic m h k = ground arith

-- What `DecodeHeader` may return of a stream.
pub data DecodesHeader (r : Bytes) : Decoded (StreamHeader × Bytes) → Type 0 where
  short : length r < header_size → DecodesHeader r (err short_read)
  foreign :
      header_size ≤ length r
      → get_or r 0 0 ≢ magic_upload
      → get_or r 0 0 ≢ magic_download
      → DecodesHeader r (err invalid_magic)
  valid :
      header_size ≤ length r
      → (get_or r 0 0 ≡ magic_upload) ⊎ (get_or r 0 0 ≡ magic_download)
      → DecodesHeader r (ok (parse_header (take header_size r), drop header_size r))

-- `DecodeHeader` fails with a short read on fewer than 64 bytes, with an invalid magic byte on a
-- first byte other than 1 and 2, and otherwise takes exactly 64 bytes and parses them.
pub decode_header-DecodesHeader : (r : Bytes) → DecodesHeader r (decode_header r)
unfolding decode_header
decode_header-DecodesHeader r = elim (Bool-cases (ltb (length r) header_size)) [
  | inl e ↦
      let h = ltb→lt (length r) header_size e in
      rw (read_full_short 64 r h, decode_header) (short h)
  | inr e ↦
      let h : header_size ≤ length r = not_lt (length r) header_size e in
      elim (magic-cases (get_or r 0 0)) [
        | inl m ↦
            let m' =
              subst (λ z. (z ≡ magic_upload) ⊎ (z ≡ magic_download)) (sym (magic-parse r)) m in
            rw (read_full_long 64 r h, decode_header, valid_magic _ m') (valid h m)
        | inr m ↦
            rw
              (
                read_full_long 64 r h,
                decode_header,
                magic-parse r,
                other_magic (get_or r 0 0) m.0 m.1,
              )
              (foreign h m.0 m.1)
      ]
]

-- A request for a hash without null bytes is read back, cut to 64 bytes.
decode-encode_download_request :
    (q : DownloadRequest) (rest : Bytes)
    → All (λ b. b ≢ 0) q.hash
    → decode_download_request (encode_download_request q ++ rest)
      ≡ ok (record { hash = take 64 q.hash }, rest)
unfolding decode_download_request encode_download_request
decode-encode_download_request q rest a =
    let buf = magic_download ∷ copy_padded 64 q.hash in
    let len = length-copy_padded 64 q.hash in
    rw (read_full-append 65 buf rest (omega (arith, len)), decode_download_request)
      (λ i. ok (record { hash = hash_field i }, rest))
  where
    whole : (n : ℕ) (bs : Bytes) → length bs ≡ n → take n bs ≡ bs
    whole zero [] h = refl
    whole zero (b ∷ bs) h = absurd (omega arith)
    whole (suc n) [] h = refl
    whole (suc n) (b ∷ bs) h = ap (◌∷◌ b) (whole n bs (omega arith))

    hash_field : trim_null (take 64 (copy_padded 64 q.hash)) ≡ take 64 q.hash
    hash_field =
        ap trim_null (whole 64 (copy_padded 64 q.hash) (length-copy_padded 64 q.hash))
        ∙ trim_null-copy_padded 64 q.hash a
