-- ===== src/Client/Upload/Contents.antt =====
-- What an upload of backend/dfs/client/master_client.go has sent: the streaming session against the
-- content that it stands for.
use distributed_file_system.Prelude.{
  ℕ, ◌+◌, ◌≡◌, ◌≢◌, inl, inr, refl, ap, sym, ◌∙◌, List, [], ◌∷◌, ◌++◌, none, Bytes, length,
  length-append, map, ◌==◌, nat_eq, bytes_eq, arith, Bool-cases, Option-cases, some_not_none,
}
use mathlib.Core.List.{append_assoc}
use distributed_file_system.Streaming.Server.{concat}
use distributed_file_system.Client.Upload.{
  Connection, StreamUploadSession, UploadError, done, failed, Write, wrote, broken, send_bytes,
  write_one, write_loop, write_chunk, stream_loop,
}

-- The abstract session: content is sent on every connection, and counted.
abbrev pub extended : Bytes → StreamUploadSession → StreamUploadSession
extended bs s = record s {
  connections = map (send_bytes bs) s.connections;
  bytes_written = s.bytes_written + length bs;
}

send_bytes_twice :
    (x y : Bytes) (c : Connection) → send_bytes y (send_bytes x c) ≡ send_bytes (x ++ y) c
send_bytes_twice x y c = ap (λ t. record c { sent = t }) (append_assoc c.sent x y)

map_twice :
    (x y : Bytes) (cs : List Connection)
    → map (send_bytes y) (map (send_bytes x) cs) ≡ map (send_bytes (x ++ y)) cs
map_twice x y [] = refl
map_twice x y (c ∷ cs) = λ i. send_bytes_twice x y c i ∷ map_twice x y cs i

pub append_nil : (bs : Bytes) → bs ++ [] ≡ bs
append_nil [] = refl
append_nil (b ∷ bs) = ap (◌∷◌ b) (append_nil bs)

map_nothing : (cs : List Connection) → map (send_bytes []) cs ≡ cs
map_nothing [] = refl
map_nothing (c ∷ cs) = λ i. record c { sent = append_nil c.sent i } ∷ map_nothing cs i

pub extended_twice :
    (x y : Bytes) (s : StreamUploadSession) → extended y (extended x s) ≡ extended (x ++ y) s
extended_twice x y s =
    let counted : s.bytes_written + length x + length y ≡ s.bytes_written + length (x ++ y) =
      omega (arith, length-append x y) in
    λ i. record s { connections = map_twice x y s.connections i; bytes_written = counted i }

pub extended_nothing : (s : StreamUploadSession) → extended [] s ≡ s
extended_nothing s =
    let counted : s.bytes_written + 0 ≡ s.bytes_written = omega arith in
    λ i. record s { connections = map_nothing s.connections i; bytes_written = counted i }

pub done_injective {ℓ} : {A : Type ℓ} {a b : A} → done a ≡ done b → a ≡ b
done_injective h = cc

pub failed_not_done {ℓ} : {A : Type ℓ} {a : A} {e : UploadError} → failed e ≢ done a
failed_not_done h = cc

write_one-send_bytes :
    (w : Write) (i : ℕ) (chunk : Bytes) (c : Connection)
    → (write_one w i chunk c).1 ≡ none
    → (write_one w i chunk c).0 ≡ send_bytes chunk c
unfolding write_one
write_one-send_bytes (broken n) i chunk c e = absurd cc
write_one-send_bytes (wrote n) i chunk c e = elim (Bool-cases (n == length chunk)) [
  | inl f ↦ rw f refl
  | inr f ↦ absurd (some_not_none (rw f at e))
]

module _ (writes : ℕ → Write) (chunk : Bytes) where
  write_loop-map :
      (i : ℕ) (cs : List Connection)
      → (write_loop writes chunk i cs).1 ≡ none
      → (write_loop writes chunk i cs).0 ≡ map (send_bytes chunk) cs
  unfolding write_loop
  write_loop-map i [] e = refl
  write_loop-map i (c ∷ cs) e = elim (Option-cases (write_one (writes i) i chunk c).1) [
    | inl f ↦
        rw (f, write_loop)
          (λ k.
            write_one-send_bytes (writes i) i chunk c f k
            ∷ write_loop-map (i + 1) cs (rw (f, write_loop) at e) k)
    | inr (d, f) ↦ absurd (some_not_none (rw (f, write_loop) at e))
  ]

  pub write_chunk-extended :
      (s : StreamUploadSession)
      → (write_chunk writes chunk s).1 ≡ none
      → (write_chunk writes chunk s).0 ≡ extended chunk s
  unfolding write_chunk
  write_chunk-extended s e = elim (Option-cases (write_loop writes chunk 0 s.connections).1) [
    | inl f ↦
        rw (f, write_chunk)
          (λ k. record s {
            connections = write_loop-map 0 s.connections f k;
            bytes_written = s.bytes_written + length chunk;
          })
    | inr (d, f) ↦ absurd (some_not_none (rw (f, write_chunk) at e))
  ]

-- A run of the loop that does not fail comes to one write of what the reader gave.
pub stream_loop-extended :
    (writes : ℕ → ℕ → Write) (k : ℕ) (pieces : List Bytes) (s : StreamUploadSession)
    → (stream_loop writes k pieces s).1 ≡ none
    → (stream_loop writes k pieces s).0 ≡ extended (concat pieces) s
unfolding stream_loop
stream_loop-extended writes k [] s e = sym (extended_nothing s)
stream_loop-extended writes k ([] ∷ pieces) s e = stream_loop-extended writes (k + 1) pieces s e
stream_loop-extended writes k ((b ∷ bs) ∷ pieces) s e =
    elim (Option-cases (write_chunk (writes k) (b ∷ bs) s).1) [
      | inl f ↦
          rw (f, stream_loop)
            (stream_loop-extended writes (k + 1) pieces _ (rw (f, stream_loop) at e)
              ∙ ap (extended (concat pieces)) (write_chunk-extended (writes k) (b ∷ bs) s f)
              ∙ extended_twice (b ∷ bs) (concat pieces) s)
      | inr (d, f) ↦ absurd (some_not_none (rw (f, stream_loop) at e))
    ]
