-- ===== src/Api/Uploads/Runs.antt =====
-- Runs of calls of `UploadChunk` of backend/internal/handlers/file_handler.go: the content that a
-- session stands for.
use distributed_file_system.Prelude.{
  ℕ, ◌+◌, ◌≡◌, ◌⊎◌, inl, inr, refl, ap, sym, ◌∙◌, subst, List, [], ◌∷◌, ◌++◌, none, some, Bytes,
  length, length-append, if◌then◌else◌, ◌==◌, nat_eq, bytes_eq, bytes_beq_iff, arith, Bool-cases,
  none_not_some, some_injective,
}
use distributed_file_system.Prelude.Int.{pos, int_eq}
use distributed_file_system.Prelude.Map.{lookup, lookup-insert, lookup-delete}
use distributed_file_system.Client.Upload.Contents.{
  extended, extended_twice, extended_nothing, append_nil,
}
use distributed_file_system.Api.{UploadSession, FileHandler, Response, success}
use distributed_file_system.Api.Files.{QueryNumber, number}
use distributed_file_system.Api.Uploads.{ChunkFile, content}
use distributed_file_system.Api.Uploads.Chunks.{
  ChunkCall, with_chunk, Chunks, refused, broke, took, call, upload_chunk-Chunks,
}
use mathlib.Core.List.{append_assoc}

abbrev pub bytes_of : ChunkFile → Bytes
bytes_of (content bytes) = bytes
bytes_of _ = []

-- The bytes of an accepted call, if it is for the session.
abbrev pub taken_by : Bytes → ChunkCall → List (QueryNumber × Bytes)
taken_by id c =
    if c.req.session_id == id then (c.req.chunk_index, bytes_of c.req.chunk) ∷ [] else []

-- The chunks that were accepted for a session in a run, with their indices.
abbrev pub accepted : Bytes → List ChunkCall → List Response → List (QueryNumber × Bytes)
accepted id (c ∷ cs) (success code body ∷ rs) = taken_by id c ++ accepted id cs rs
accepted id (c ∷ cs) (r ∷ rs) = accepted id cs rs
accepted id _ _ = []

-- The indices count up.
abbrev pub Numbered : ℕ → List (QueryNumber × Bytes) → Type 0
Numbered n [] = Unit
Numbered n ((index, bytes) ∷ l) = (index ≡ number (pos n)) × Numbered (n + 1) l

abbrev pub contents : List (QueryNumber × Bytes) → Bytes
contents [] = []
contents ((index, bytes) ∷ l) = bytes ++ contents l

-- The session once chunks were accepted.
abbrev pub with_chunks : List (QueryNumber × Bytes) → UploadSession → UploadSession
with_chunks l s = record s {
  stream_session = extended (contents l) s.stream_session;
  next_chunk = s.next_chunk + length l;
}

with_chunks_none : (s : UploadSession) → with_chunks [] s ≡ s
with_chunks_none s =
    let next : s.next_chunk + 0 ≡ s.next_chunk = omega arith in
    λ i. record s { stream_session = extended_nothing s.stream_session i; next_chunk = next i }

with_chunks_one :
    (n : QueryNumber) (bytes : Bytes) (s : UploadSession)
    → with_chunks ((n, bytes) ∷ []) s ≡ with_chunk bytes s
with_chunks_one n bytes s = λ i. record s {
  stream_session = extended (append_nil bytes i) s.stream_session;
  next_chunk = s.next_chunk + 1;
}

contents-append : (l m : List (QueryNumber × Bytes)) → contents (l ++ m) ≡ contents l ++ contents m
contents-append [] m = refl
contents-append ((n, bytes) ∷ l) m =
    ap (λ t. bytes ++ t) (contents-append l m) ∙ sym (append_assoc bytes (contents l) (contents m))

with_chunks_more :
    (l m : List (QueryNumber × Bytes)) (s : UploadSession)
    → with_chunks m (with_chunks l s) ≡ with_chunks (l ++ m) s
with_chunks_more l m s =
    let next : s.next_chunk + length l + length m ≡ s.next_chunk + length (l ++ m) =
      omega (arith, length-append l m) in
    λ i. record s {
      stream_session =
          (extended_twice (contents l) (contents m) s.stream_session
              ∙ ap (λ t. extended t s.stream_session) (sym (contents-append l m)))
            i;
      next_chunk = next i;
    }

Numbered-append :
    (n : ℕ) (l m : List (QueryNumber × Bytes))
    → Numbered n l
    → Numbered (n + length l) m
    → Numbered n (l ++ m)
Numbered-append n [] m a b = subst (λ k. Numbered k m) (omega arith) b
Numbered-append n ((i, bytes) ∷ l) m a b =
    (a.0, Numbered-append (n + 1) l m a.1 (subst (λ k. Numbered k m) (omega arith) b))

module _ {Db : Type 0} where
  unfoldable pub run_chunks : List ChunkCall → FileHandler Db → FileHandler Db × List Response
  run_chunks [] h = (h, [])
  run_chunks (c ∷ cs) h =
      ((run_chunks cs (call c h).0).0, (call c h).1 ∷ (run_chunks cs (call c h).0).1)

  -- What a session has become.
  abbrev pub Became : Bytes → UploadSession → List (QueryNumber × Bytes) → FileHandler Db → Type 0
  Became id s l h =
      (lookup id h.sessions ≡ none)
      ⊎ ((lookup id h.sessions ≡ some (with_chunks l s)) × Numbered s.next_chunk l)

  gone_one :
      (id : Bytes) (c : ChunkCall) (h : FileHandler Db) {r : FileHandler Db × Response}
      → Chunks c h r
      → lookup id h.sessions ≡ none
      → lookup id r.0.sessions ≡ none
  gone_one id c h (refused r) e = e
  gone_one id c h (broke r) e = lookup-delete c.req.session_id id h.sessions ∙ ground (arith, e)
  gone_one id c h (took user s bytes f g i j k) e = elim (Bool-cases (c.req.session_id == id)) [
    | inl q ↦ absurd (
        none_not_some (
          sym e
          ∙ ap (λ t. lookup t h.sessions) (sym ((bytes_beq_iff c.req.session_id id).0 q))
          ∙ g))
    | inr q ↦ lookup-insert c.req.session_id id _ h.sessions ∙ rw q e
  ]

  -- What one call does for a session: it ends it, or it accepts some chunks.
  abbrev One : Bytes → ChunkCall → UploadSession → FileHandler Db × Response → Type 0
  One id c s r =
      (lookup id r.0.sessions ≡ none)
      ⊎ ((l : List (QueryNumber × Bytes)) × (lookup id r.0.sessions ≡ some (with_chunks l s))
          × Numbered s.next_chunk l
          × ((cs : List ChunkCall) (rs : List Response)
              → accepted id (c ∷ cs) (r.1 ∷ rs) ≡ l ++ accepted id cs rs))

  one :
      (id : Bytes) (c : ChunkCall) (h : FileHandler Db) (s : UploadSession)
      {r : FileHandler Db × Response}
      → Chunks c h r
      → lookup id h.sessions ≡ some s
      → One id c s r
  one id c h s (refused r) e = inr ([], e ∙ ap some (sym (with_chunks_none s)), tt, λ cs rs. refl)
  one id c h s (broke r) e = elim (Bool-cases (c.req.session_id == id)) [
    | inl q ↦ inl (lookup-delete c.req.session_id id h.sessions ∙ rw q refl)
    | inr q ↦ inr (
      [],
      lookup-delete c.req.session_id id h.sessions ∙ rw q (e ∙ ap some (sym (with_chunks_none s))),
      tt,
      λ cs rs. refl,
    )
  ]
  one id c h s (took user t bytes f g i j k) e = elim (Bool-cases (c.req.session_id == id)) [
    | inl q ↦
        let same : t ≡ s =
          some_injective
            (sym g ∙ ap (λ x. lookup x h.sessions) ((bytes_beq_iff c.req.session_id id).0 q) ∙ e) in
        inr (
          (c.req.chunk_index, bytes) ∷ [],
          lookup-insert c.req.session_id id (with_chunk bytes t) h.sessions
              ∙ rw q (
                  ap (λ x. some (with_chunk bytes x)) same
                  ∙ ap some (sym (with_chunks_one c.req.chunk_index bytes s))),
          (j ∙ ap (λ x. number (pos x.next_chunk)) same, tt),
          λ cs rs. rw (q, k) refl,
        )
    | inr q ↦ inr (
      [],
      lookup-insert c.req.session_id id (with_chunk bytes t) h.sessions
          ∙ rw q (e ∙ ap some (sym (with_chunks_none s))),
      tt,
      λ cs rs. rw q refl,
    )
  ]

  run_chunks-gone :
      (id : Bytes) (cs : List ChunkCall) (h : FileHandler Db)
      → lookup id h.sessions ≡ none
      → lookup id (run_chunks cs h).0.sessions ≡ none
  unfolding run_chunks
  run_chunks-gone id [] h e = e
  run_chunks-gone id (c ∷ cs) h e =
      run_chunks-gone id cs (call c h).0 (gone_one id c h (upload_chunk-Chunks c h) e)

  Became-more :
      (id : Bytes) (s : UploadSession) (l m : List (QueryNumber × Bytes)) (h : FileHandler Db)
      → Numbered s.next_chunk l
      → Became id (with_chunks l s) m h
      → Became id s (l ++ m) h
  Became-more id s l m h a (inl e) = inl e
  Became-more id s l m h a (inr e) =
      inr (e.0 ∙ ap some (with_chunks_more l m s), Numbered-append s.next_chunk l m a e.1)

  -- Whatever calls are made, in any order and by anybody: a session that is still there stands for
  -- the chunks that were accepted for it, one after the other: they were sent on every connection
  -- after what was sent before, their bytes and their number are counted, and their indices count
  -- up from the next one that the session had.
  pub run_chunks-Became :
      (id : Bytes) (cs : List ChunkCall) (h : FileHandler Db) (s : UploadSession)
      → lookup id h.sessions ≡ some s
      → Became id s (accepted id cs (run_chunks cs h).1) (run_chunks cs h).0
  unfolding run_chunks
  run_chunks-Became id [] h s e = inr (e ∙ ap some (sym (with_chunks_none s)), tt)
  run_chunks-Became id (c ∷ cs) h s e = elim (one id c h s (upload_chunk-Chunks c h) e) [
    | inl gone ↦ inl (run_chunks-gone id cs (call c h).0 gone)
    | inr (l, there, numbered, same) ↦
        subst (λ t. Became id s t (run_chunks cs (call c h).0).0)
          (sym (same cs (run_chunks cs (call c h).0).1))
          (Became-more id s l (accepted id cs (run_chunks cs (call c h).0).1)
            (run_chunks cs (call c h).0).0 numbered
            (run_chunks-Became id cs (call c h).0 (with_chunks l s) there))
  ]
