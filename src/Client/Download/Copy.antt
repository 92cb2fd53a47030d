-- ===== src/Client/Download/Copy.antt =====
-- The copy of backend/dfs/client/master_client.go against its description, which knows nothing of
-- the sizes of the reads.
use distributed_file_system.Prelude.{
  ℕ, zero, suc, ◌+◌, ◌-◌, ◌≤◌, ◌<◌, ◌≡◌, inl, inr, refl, ap, sym, ◌∙◌, Bool, true, false, not, [],
  ◌∷◌, ◌++◌, Option, none, some, Bytes, length, length-append, length-take, length-drop, take, drop,
  ltb, lt→ltb, ltb→lt, if◌then◌else◌, ◌==◌, nat_eq, bytes_eq, nat_beq_iff, arith, Bool-cases,
}
use mathlib.Core.List.{append_assoc}
use distributed_file_system.Client.Upload.Contents.{append_nil}
use distributed_file_system.Client.Upload.{Write, wrote}
use distributed_file_system.Client.Download.{
  DownloadError, hash_mismatch, incomplete_download, read_failed, StreamCopier, process_chunk,
  to_lower, verify_hash, read_size, copy_loop, copy, conclude,
}

-- What a copy is to give for the bytes of a connection, if the destination takes all: the output
-- and the error.
abbrev pub copied : (Bytes → Bytes) → Bytes → ℕ → Bool → Bytes → Bytes × Option DownloadError
copied sum hash total ends conn = (
  take total conn,
  if ltb (length conn) total
      then (if ends
          then some (incomplete_download total (length conn))
          else some (read_failed (length conn)))
      else if not (to_lower (sum (take total conn)) == to_lower hash)
      then some hash_mismatch
      else none,
)

-- The copier that has taken the bytes.
abbrev copier : Bytes → StreamCopier
copier bs = record { written = length bs; hashed = bs; output = bs }

not_ltb : (a b : ℕ) → ltb a b ≡ false → b ≤ a
not_ltb a b h = ground arith

short_beq : (bs : Bytes) (n : ℕ) → length bs < n → (length (take n bs) == n) ≡ false
short_beq bs n h = ground (arith, length-take n bs)

take_nil : (n : ℕ) → take {A = ℕ} n [] ≡ []
take_nil zero = refl
take_nil (suc n) = refl

take_more : (n m : ℕ) (bs : Bytes) → take n bs ++ take m (drop n bs) ≡ take (n + m) bs
take_more zero m bs = ap (λ k. take k bs) (omega arith)
take_more (suc n) m [] = take_nil m ∙ sym (take_nil (suc n + m))
take_more (suc n) m (b ∷ bs) =
    let next : suc (n + m) ≡ suc n + m = omega arith in
    ap (◌∷◌ b) (take_more n m bs) ∙ ap (λ k. take k (b ∷ bs)) next

module _ (ends : Bool) (total : ℕ) where
  abbrev verdict : ℕ → Option DownloadError
  verdict n = if ltb n total then if ends then none else some (read_failed n) else none

  -- What the loop comes to from the bytes that were taken and those that are left.
  abbrev finished : Bytes → Bytes → StreamCopier × Option DownloadError
  finished acc left =
      (copier (acc ++ take (total - length acc) left), verdict (length acc + length left))

  finished_full : (acc left : Bytes) → total ≤ length acc → finished acc left ≡ (copier acc, none)
  finished_full acc left full =
      let nothing : total - length acc ≡ 0 = omega arith in
      let fine : verdict (length acc + length left) ≡ none = ground arith in
      λ i. (copier ((ap (λ n. acc ++ take n left) nothing ∙ append_nil acc) i), fine i)

  finished_empty :
      (acc : Bytes)
      → length acc < total
      → finished acc [] ≡ (copier acc, if ends then none else some (read_failed (length acc)))
  finished_empty acc short =
      let plus : length acc + 0 ≡ length acc = omega arith in
      let bad : verdict (length acc + 0)
          ≡ (if ends then none else some (read_failed (length acc))) =
        ap verdict plus ∙ rw (lt→ltb (length acc) total short) refl in
      λ i. (copier ((ap (λ t. acc ++ t) (take_nil (total - length acc)) ∙ append_nil acc) i), bad i)

  finished_step :
      (n : ℕ) (acc left : Bytes)
      → n ≤ total - length acc
      → n ≤ length left
      → finished (acc ++ take n left) (drop n left) ≡ finished acc left
  finished_step n acc left a b =
      let taken : length (acc ++ take n left) ≡ length acc + n =
        omega (arith, length-append acc (take n left), length-take n left) in
      let rest : total - length (acc ++ take n left) ≡ total - length acc - n =
        omega (arith, taken) in
      let all : n + (total - length acc - n) ≡ total - length acc = omega arith in
      let same : length (acc ++ take n left) + length (drop n left) ≡ length acc + length left =
        omega (arith, taken, length-drop n left) in
      λ i. (
        copier (
            (ap (λ m. (acc ++ take n left) ++ take m (drop n left)) rest
                ∙ append_assoc acc (take n left) _
                ∙ ap (λ t. acc ++ t) (take_more n (total - length acc - n) left)
                ∙ ap (λ m. acc ++ take m left) all)
              i),
        verdict (same i),
      )

  finished_start :
      (conn : Bytes) → finished [] conn ≡ (copier (take total conn), verdict (length conn))
  finished_start conn =
      let n : total - 0 ≡ total = omega arith in
      let m : 0 + length conn ≡ length conn = omega arith in
      λ i. (copier (take (n i) conn), verdict (m i))

  conclude-copied :
      (sum : Bytes → Bytes) (hash conn : Bytes)
      → conclude sum hash total (copier (take total conn), verdict (length conn))
        ≡ copied sum hash total ends conn
  unfolding conclude verify_hash
  conclude-copied sum hash conn = elim (Bool-cases (ltb (length conn) total)) [
    | inr e ↦
        let all : (length (take total conn) == total) ≡ true =
          (nat_beq_iff (length (take total conn)) total).1
            (omega (arith, length-take total conn, not_ltb (length conn) total e)) in
        rw (e, all, conclude) refl
    | inl e ↦ elim (Bool-cases ends) [
      | inr f ↦ rw (e, f, conclude) refl
      | inl f ↦
          let few : (length (take total conn) == total) ≡ false =
            short_beq conn total (ltb→lt (length conn) total e) in
          let count : length (take total conn) ≡ length conn =
            omega (arith, length-take total conn, ltb→lt (length conn) total e) in
          rw (e, f, few, conclude)
            (λ i. (take total conn, some (incomplete_download total (count i))))
    ]
  ]

  module _ (reads : ℕ → ℕ) (sink : ℕ → Bytes → Write)
      (takes : (k : ℕ) (chunk : Bytes) → sink k chunk ≡ wrote (length chunk)) where
    process_chunk-copier :
        (w : Write) (acc chunk : Bytes)
        → w ≡ wrote (length chunk)
        → process_chunk w chunk (copier acc) ≡ (copier (acc ++ chunk), none)
    unfolding process_chunk
    process_chunk-copier w acc chunk e =
        let more : length acc + length chunk ≡ length (acc ++ chunk) =
          omega (arith, length-append acc chunk) in
        let same : (length chunk == length chunk) ≡ true =
          (nat_beq_iff (length chunk) (length chunk)).1 refl in
        rw (e, process_chunk, same)
          (λ i. (record { written = more i; hashed = acc ++ chunk; output = acc ++ chunk }, none))

    read_size-bounds :
        (k : ℕ) (left acc : Bytes)
        → length acc < total
        → 0 < length left
        → let n = read_size reads ends sink total k left (copier acc) in
          (0 < n) × (n ≤ total - length acc) × (n ≤ length left)
    read_size-bounds k left acc short more = (omega arith, omega arith, omega arith)

    copy_loop-finished :
        (fuel k : ℕ) (acc left : Bytes)
        → total ≤ length acc + fuel
        → copy_loop reads ends sink total fuel k left (copier acc) ≡ finished acc left
    unfolding copy_loop
    copy_loop-finished zero k acc left enough = sym (finished_full acc left (omega arith))
    copy_loop-finished (suc fuel) k acc [] enough = elim (Bool-cases (ltb (length acc) total)) [
      | inr e ↦ rw (e, copy_loop) (sym (finished_full acc [] (ground arith)))
      | inl e ↦ rw (e, copy_loop) (sym (finished_empty acc (ltb→lt (length acc) total e)))
    ]
    copy_loop-finished (suc fuel) k acc (b ∷ bs) enough =
        elim (Bool-cases (ltb (length acc) total)) [
          | inr e ↦ rw (e, copy_loop) (sym (finished_full acc (b ∷ bs) (ground arith)))
          | inl e ↦
              let n = read_size reads ends sink total k (b ∷ bs) (copier acc) in
              let went =
                process_chunk-copier (sink k (take n (b ∷ bs))) acc (take n (b ∷ bs))
                  (takes k (take n (b ∷ bs))) in
              let (some_byte, within, there) =
                read_size-bounds k (b ∷ bs) acc (ltb→lt (length acc) total e) (omega arith) in
              rw (e, went, copy_loop)
                (ap (λ r. copy_loop reads ends sink total fuel (k + 1) (drop n (b ∷ bs)) r.0) went
                  ∙ copy_loop-finished fuel (k + 1) (acc ++ take n (b ∷ bs)) (drop n (b ∷ bs)) (
                      omega (
                        arith,
                        length-append acc (take n (b ∷ bs)),
                        length-take n (b ∷ bs),
                        some_byte,
                        there,
                        enough,
                      ))
                  ∙ finished_step n acc (b ∷ bs) within there)
        ]

    -- Whatever the reads give: if the destination takes all, then the copy ends with the first
    -- bytes of the connection in the destination, as many as were announced or as there are, and
    -- without an error exactly if there are enough and their hash is the expected one in lower
    -- case; a connection that ends early is reported with the count of the bytes that came.
    pub copy-copied :
        (sum : Bytes → Bytes) (hash conn : Bytes)
        → copy reads ends sink total sum hash conn ≡ copied sum hash total ends conn
    unfolding copy
    copy-copied sum hash conn =
        ap (conclude sum hash total)
          (copy_loop-finished total 0 [] conn (omega arith) ∙ finished_start conn)
        ∙ conclude-copied sum hash conn
