-- ===== src/Client/Upload/Answers.antt =====
-- What a successful upload of backend/dfs/client/master_client.go has gathered from the answers of
-- the storage nodes.
use distributed_file_system.Prelude.{
  ℕ, zero, suc, ◌+◌, ◌≤◌, ◌≡◌, ◌≢◌, inl, inr, refl, ap, sym, ◌∙◌, subst, Bool, true, List, [], ◌∷◌,
  ◌++◌, Option, none, some, Bytes, length, take, drop, get_or, get_elem?, if◌then◌else◌, ◌==◌,
  nat_eq, bytes_eq, nat_beq_iff, arith, ltb, Bool-cases, Option-cases, some_injective,
  some_not_none,
}
use mathlib.Core.List.{append_assoc}
use distributed_file_system.Common.Types.{NodeId}
use distributed_file_system.Streaming.Protocol.{read_full, trim_null, slice}
use distributed_file_system.Streaming.Server.{concat}
use distributed_file_system.Client.Upload.{
  Connection, StreamUploadSession, UploadResult, UploadError, response_unread, done, Write,
  Collected, first, collect_one, collect, nothing_collected, finish, finalize, stream_loop,
  upload_stream,
}
use distributed_file_system.Client.Upload.Contents.{
  extended, append_nil, failed_not_done, stream_loop-extended, done_injective,
}

abbrev pub Confirms : Bytes → Type 0
Confirms bs = (321 ≤ length bs) × (get_or bs 0 0 ≡ 1)

-- Every connection is answered by a success.
abbrev pub AllConfirm : (ℕ → Bytes → Bytes) → ℕ → List Connection → Type 0
AllConfirm responses i [] = Unit
AllConfirm responses i (c ∷ cs) = Confirms (responses i c.sent) × AllConfirm responses (i + 1) cs

-- The hash that `Finalize` has after an answer, and after all of them.
abbrev pub next_hash : Bytes → Bytes → Bytes
next_hash h bs = if h == [] then trim_null (slice 1 65 (take 321 bs)) else h

abbrev pub first_hash : (ℕ → Bytes → Bytes) → ℕ → List Connection → Bytes → Bytes
first_hash responses i [] h = h
first_hash responses i (c ∷ cs) h =
    first_hash responses (i + 1) cs (next_hash h (responses i c.sent))

take_at :
    (ids : List NodeId) (i n : ℕ) (id : NodeId)
    → get_elem? ids i ≡ some id
    → take (suc n) (drop i ids) ≡ id ∷ take n (drop (suc i) ids)
take_at [] i n id h = absurd (some_not_none (sym h))
take_at (x ∷ xs) zero n id h = ap (λ y. y ∷ take n xs) (some_injective h)
take_at (x ∷ xs) (suc i) n id h = take_at xs i n id h

take_next :
    (ids : List NodeId) (i n : ℕ) (id : NodeId)
    → get_elem? ids i ≡ some id
    → take (suc n) (drop i ids) ≡ id ∷ take n (drop (i + 1) ids)
take_next ids i n id h =
    let next : suc i ≡ i + 1 = omega arith in
    take_at ids i n id h ∙ ap (λ k. id ∷ take n (drop k ids)) next

get_or-take : (n : ℕ) (bs : Bytes) → get_or (take (suc n) bs) 0 0 ≡ get_or bs 0 0
get_or-take n [] = refl
get_or-take n (b ∷ bs) = refl

-- What one answer makes of the variables of `Finalize`.
data CollectsOne (ids : List NodeId) (i : ℕ) (bs : Bytes) (r : Collected)
    : Option Collected → Type 0 where
  refused :
      (e : UploadError)
      → CollectsOne ids i bs r (some (record r { first_error = first r.first_error e }))
  out_of_range : get_elem? ids i ≡ none → CollectsOne ids i bs r none
  confirmed :
      (id : NodeId)
      → Confirms bs
      → get_elem? ids i ≡ some id
      → CollectsOne ids i bs r (
          some (record r {
            hash = next_hash r.hash bs;
            successful_nodes = r.successful_nodes ++ id ∷ [];
          }))

module _ (ids : List NodeId) where
  collect_one-read :
      (i : ℕ) (bs rest : Bytes) (r : Collected)
      → 321 ≤ length bs
      → CollectsOne ids i bs r (collect_one ids i (some (take 321 bs, rest)) r)
  unfolding collect_one
  collect_one-read i bs rest r long = elim (Bool-cases (get_or (take 321 bs) 0 0 == 1)) [
    | inr e ↦ rw (e, collect_one) (refused _)
    | inl e ↦ elim (Option-cases (get_elem? ids i)) [
      | inl f ↦ rw (e, collect_one, f) (out_of_range f)
      | inr (id, f) ↦
          rw (e, collect_one, f)
            (confirmed id
              (long, sym (get_or-take 320 bs) ∙ (nat_beq_iff (get_or (take 321 bs) 0 0) 1).0 e) f)
    ]
  ]

  collect_one-CollectsOne :
      (i : ℕ) (bs : Bytes) (r : Collected)
      → CollectsOne ids i bs r (collect_one ids i (read_full 321 bs) r)
  unfolding read_full collect_one
  collect_one-CollectsOne i bs r = elim (Bool-cases (ltb (length bs) 321)) [
    | inl e ↦ rw (e, collect_one) (refused (response_unread i))
    | inr e ↦ rw e (collect_one-read i bs (drop 321 bs) r (ground arith))
  ]

  first_some : (o : Option UploadError) (e : UploadError) → first o e ≢ none
  first_some none e h = some_not_none h
  first_some (some d) e h = some_not_none h

  after_one :
      {i : ℕ} {bs : Bytes} {r r1 : Collected} {o : Option Collected}
      → CollectsOne ids i bs r o
      → o ≡ some r1
      → r1.first_error ≡ none
      → (r.first_error ≡ none)
        × Confirms bs
        × (r1.hash ≡ next_hash r.hash bs)
        × ((id : NodeId) × (get_elem? ids i ≡ some id)
            × (r1.successful_nodes ≡ r.successful_nodes ++ id ∷ []))
  after_one {r = r} (refused e) q none_left =
      absurd (first_some r.first_error e (ap (λ x. x.first_error) (some_injective q) ∙ none_left))
  after_one (out_of_range f) q none_left = absurd (some_not_none (sym q))
  after_one (confirmed id c f) q none_left =
      let same = some_injective q in
      (
        ap (λ x. x.first_error) same ∙ none_left,
        c,
        ap (λ x. x.hash) (sym same),
        (id, f, ap (λ x. x.successful_nodes) (sym same)),
      )

  module _ (responses : ℕ → Bytes → Bytes) where
    collect_success :
        (i : ℕ) (cs : List Connection) (r r' : Collected)
        → collect responses ids i cs r ≡ some r'
        → r'.first_error ≡ none
        → (r.first_error ≡ none)
          × AllConfirm responses i cs
          × (r'.hash ≡ first_hash responses i cs r.hash)
          × (r'.successful_nodes ≡ r.successful_nodes ++ take (length cs) (drop i ids))
    unfolding collect
    collect_success i [] r r' e f =
        let same = some_injective e in
        (
          ap (λ x. x.first_error) same ∙ f,
          tt,
          ap (λ x. x.hash) (sym same),
          ap (λ x. x.successful_nodes) (sym same) ∙ sym (append_nil _),
        )
    collect_success i (c ∷ cs) r r' e f =
        elim (Option-cases (collect_one ids i (read_full 321 (responses i c.sent)) r)) [
          | inl q ↦ absurd (some_not_none (sym (rw (q, collect) at e)))
          | inr (r1, q) ↦
              let rest = collect_success (i + 1) cs r1 r' (rw (q, collect) at e) f in
              let (fine, c1, h1, (id, at_i, nodes)) =
                after_one (collect_one-CollectsOne i (responses i c.sent) r) q rest.0 in
              (
                fine,
                (c1, rest.1),
                rest.2 ∙ ap (first_hash responses (i + 1) cs) h1,
                rest.3
                    ∙ ap (λ t. t ++ take (length cs) (drop (i + 1) ids)) nodes
                    ∙ append_assoc r.successful_nodes (id ∷ []) _
                    ∙ ap (λ t. r.successful_nodes ++ t) (sym (take_next ids i (length cs) id at_i)),
              )
        ]

finish-done :
    (o : Option Collected) (r : UploadResult)
    → finish o ≡ done r
    → (c : Collected) × (o ≡ some c)
      × (c.first_error ≡ none)
      × (r ≡ record { hash = c.hash; node_ids = c.successful_nodes })
unfolding finish
finish-done none r e = absurd cc
finish-done (some c) r e = elim (Option-cases c.first_error) [
  | inl f ↦ (c, refl, f, sym (done_injective (rw (f, finish) at e)))
  | inr (d, f) ↦ absurd (failed_not_done (rw (f, finish) at e))
]

-- What a session must be for `Finalize` to succeed on it, and what it then gives.
abbrev pub Finalizes : (ℕ → Bytes → Bytes) → StreamUploadSession → UploadResult → Type 0
Finalizes responses s r =
    (s.bytes_written ≡ s.size)
    × AllConfirm responses 0 s.connections
    × (r.hash ≡ first_hash responses 0 s.connections [])
    × (r.node_ids ≡ take (length s.connections) s.node_ids)

pub finalize-Finalizes :
    (responses : ℕ → Bytes → Bytes) (s : StreamUploadSession) (r : UploadResult)
    → finalize responses s ≡ done r
    → Finalizes responses s r
unfolding finalize
finalize-Finalizes responses s r e = elim (Bool-cases (s.bytes_written == s.size)) [
  | inr f ↦ absurd (failed_not_done (rw (f, finalize) at e))
  | inl f ↦
      let (c, some_c, fine, same) = finish-done _ r (rw (f, finalize) at e) in
      let (_, all, hash, nodes) =
        collect_success s.node_ids responses 0 s.connections nothing_collected c some_c fine in
      (
        (nat_beq_iff s.bytes_written s.size).0 f,
        all,
        ap (λ x. x.hash) same ∙ hash,
        ap (λ x. x.node_ids) same ∙ nodes,
      )
]

-- An upload that succeeds, against the abstract session: the reader ended without an error, the
-- bytes that it gave make up the announced size, every connection was sent exactly what it had
-- been sent before and then these bytes, all of them were answered by a success, and the result
-- has the identifiers of their nodes and the first hash that an answer names.
pub upload_stream-Finalizes :
    (writes : ℕ → ℕ → Write) (responses : ℕ → Bytes → Bytes) (pieces : List Bytes) (ends : Bool)
    (s : StreamUploadSession) (r : UploadResult)
    → upload_stream writes responses pieces ends s ≡ done r
    → (ends ≡ true) × Finalizes responses (extended (concat pieces) s) r
unfolding upload_stream
upload_stream-Finalizes writes responses pieces ends s r e =
    elim (Option-cases (stream_loop writes 0 pieces s).1) [
      | inr (d, f) ↦ absurd (failed_not_done (rw (f, upload_stream) at e))
      | inl f ↦ elim (Bool-cases ends) [
        | inr g ↦ absurd (failed_not_done (rw (f, g, upload_stream) at e))
        | inl g ↦ (
          g,
          subst (λ t. Finalizes responses t r) (stream_loop-extended writes 0 pieces s f)
              (finalize-Finalizes responses (stream_loop writes 0 pieces s).0 r
                (rw (f, g, upload_stream) at e)),
        )
      ]
    ]
