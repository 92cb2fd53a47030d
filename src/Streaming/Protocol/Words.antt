-- ===== src/Streaming/Protocol/Words.antt =====
-- Big-endian words and padded texts: each reader undoes its writer.
use distributed_file_system.Prelude.{
  ℕ, zero, suc, ◌^◌, ◌<◌, ◌≡◌, ◌≢◌, refl, ap, [], ◌∷◌, Bytes, length, take, arith, if◌then◌else◌,
  ◌==◌, nat_eq, All,
}
use distributed_file_system.Streaming.Protocol.{copy_padded, put_big_endian, big_endian, trim_null}

pub length-put_big_endian : (n w : ℕ) → length (put_big_endian n w) ≡ n
unfolding put_big_endian
length-put_big_endian zero w = refl
length-put_big_endian (suc n) w = ap suc (length-put_big_endian n w)

pub length-copy_padded : (n : ℕ) (bs : Bytes) → length (copy_padded n bs) ≡ n
unfolding copy_padded
length-copy_padded zero bs = refl
length-copy_padded (suc n) [] = ap suc (length-copy_padded n [])
length-copy_padded (suc n) (b ∷ bs) = ap suc (length-copy_padded n bs)

pub big_endian-put : (w : ℕ) → w < 2 ^ 64 → big_endian (put_big_endian 8 w) ≡ w
unfolding big_endian put_big_endian
big_endian-put w h = omega arith

pub big_endian-put32 : (w : ℕ) → w < 2 ^ 32 → big_endian (put_big_endian 4 w) ≡ w
unfolding big_endian put_big_endian
big_endian-put32 w h = omega arith

trim_null-zeros : (n : ℕ) → trim_null (copy_padded n []) ≡ []
unfolding trim_null copy_padded
trim_null-zeros zero = refl
trim_null-zeros (suc n) = rw (trim_null-zeros n, trim_null)

-- Reading a padded slot gives the text back, cut to the slot.
pub trim_null-copy_padded :
    (n : ℕ) (bs : Bytes) → All (λ b. b ≢ 0) bs → trim_null (copy_padded n bs) ≡ take n bs
unfolding trim_null copy_padded
trim_null-copy_padded zero bs a = refl
trim_null-copy_padded (suc n) [] a = rw (trim_null-zeros n, trim_null)
trim_null-copy_padded (suc n) (b ∷ bs) a =
    rw (trim_null-copy_padded n bs a.1, trim_null) (keep b (take n bs) a.0)
  where
    keep :
        (b : ℕ) (cs : Bytes)
        → b ≢ 0
        → ◌≡◌ {A = Bytes}
            (elim cs [ [] ↦ if b == 0 then [] else b ∷ [] | c ∷ ds ↦ b ∷ c ∷ ds ])
            (b ∷ cs)
    keep b [] h = ground arith
    keep b (c ∷ ds) h = refl
