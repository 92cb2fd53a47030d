-- ===== src/Api/Uploads/Chunks.antt =====
-- The chunks that backend/internal/handlers/file_handler.go accepts for an upload, and the content
-- that they make up.
use distributed_file_system.Prelude.{
  ℕ, ◌+◌, ◌<◌, ◌≡◌, ◌≢◌, ◌⊎◌, inl, inr, refl, ap, sym, ◌∙◌, subst, Bool, true, false, not, ◌||◌, [],
  ◌∷◌, Option, none, some, Bytes, ◌==◌, nat_eq, nat_beq_iff, bytes_eq, arith, Bool-cases,
  Option-cases,
}
use distributed_file_system.Prelude.Int.{ℤ, pos, lt_int, int_eq, int_beq_iff}
use distributed_file_system.Prelude.Map.{lookup, insert, delete}
use distributed_file_system.Client.Upload.{Write, write_chunk}
use distributed_file_system.Client.Upload.Contents.{extended, write_chunk-extended}
use distributed_file_system.Api.{
  UserClaims, UploadSession, FileHandler, Reason, Response, error, success, chunk_received,
  session_not_found, not_authorized, chunk_index_out_of_range, missing_chunk, out_of_order,
  chunk_unread, stream_failed,
}
use distributed_file_system.Api.Files.{QueryNumber, missing, malformed, number}
use distributed_file_system.Api.Uploads.{
  ChunkFile, no_file, unreadable, content, ChunkRequest, stream_chunk, chunk_for, upload_chunk,
}

-- A call of `UploadChunk`.
pub record ChunkCall : Type 0 where
  pub writes : ℕ → Write
  pub is_post : Bool
  pub user : Option UserClaims
  pub req : ChunkRequest

-- A session that has taken one more chunk.
abbrev pub with_chunk : Bytes → UploadSession → UploadSession
with_chunk bytes s = record s {
  stream_session = extended bytes s.stream_session;
  next_chunk = s.next_chunk + 1;
}

in_range :
    (n total : ℕ) → n < total → (lt_int (pos n) (pos 0) || not (lt_int (pos n) (pos total))) ≡ false
in_range n total l = ground arith

not_nil : (id : Bytes) → id ≢ [] → (id == []) ≡ false
not_nil [] h = absurd (h refl)
not_nil (b ∷ bs) h = refl

index-cases :
    (n : QueryNumber) → (n ≡ missing) ⊎ ((n ≡ malformed) ⊎ ((index : ℤ) × (n ≡ number index)))
index-cases missing = inl refl
index-cases malformed = inr (inl refl)
index-cases (number index) = inr (inr (index, refl))

module _ {Db : Type 0} where
  -- What a call comes to: a refusal that changes nothing, a write that fails and ends the session,
  -- or the next chunk from the owner of the session.
  pub data Chunks (c : ChunkCall) (h : FileHandler Db) : FileHandler Db × Response → Type 0 where
    refused : (r : Reason) → Chunks c h (h, error r)
    broke :
        (r : Reason)
        → Chunks c h (record h { sessions = delete c.req.session_id h.sessions }, error r)
    took :
        (user : UserClaims) (s : UploadSession) (bytes : Bytes)
        → c.user ≡ some user
        → lookup c.req.session_id h.sessions ≡ some s
        → s.user_id ≡ user.user_id
        → c.req.chunk_index ≡ number (pos s.next_chunk)
        → c.req.chunk ≡ content bytes
        → Chunks c h (
          record h { sessions = insert c.req.session_id (with_chunk bytes s) h.sessions },
          success 200 (chunk_received s.next_chunk (s.next_chunk + 1) s.total_chunks),
        )

  module _ (c : ChunkCall) (h : FileHandler Db) (user : UserClaims) (known : c.user ≡ some user)
      (index : ℤ) (indexed : c.req.chunk_index ≡ number index) where
    stream_chunk-Chunks :
        (chunk : ChunkFile) (s : UploadSession)
        → c.req.chunk ≡ chunk
        → lookup c.req.session_id h.sessions ≡ some s
        → s.user_id ≡ user.user_id
        → Chunks c h (stream_chunk c.writes c.req.session_id index chunk s h)
    unfolding stream_chunk
    stream_chunk-Chunks no_file s e f g = refused missing_chunk
    stream_chunk-Chunks unreadable s e f g = elim (Bool-cases (index == pos s.next_chunk)) [
      | inl q ↦ rw (q, stream_chunk) (refused chunk_unread)
      | inr q ↦ rw (q, stream_chunk) (refused (out_of_order s.next_chunk index))
    ]
    stream_chunk-Chunks (content bytes) s e f g = elim (Bool-cases (index == pos s.next_chunk)) [
      | inr q ↦ rw (q, stream_chunk) (refused (out_of_order s.next_chunk index))
      | inl q ↦ elim (Option-cases (write_chunk c.writes bytes s.stream_session).1) [
        | inr (d, w) ↦ rw (q, w, stream_chunk) (broke (stream_failed d))
        | inl w ↦
            rw (q, w, stream_chunk, write_chunk-extended c.writes bytes s.stream_session w)
              (took user s bytes known f g
                (indexed ∙ ap number ((int_beq_iff index (pos s.next_chunk)).0 q)) e)
      ]
    ]

    chunk_for-Chunks : Chunks c h (chunk_for c.writes user c.req.session_id index c.req.chunk h)
    unfolding chunk_for
    chunk_for-Chunks = elim (Option-cases (lookup c.req.session_id h.sessions)) [
      | inl e ↦ rw (e, chunk_for) (refused session_not_found)
      | inr (s, e) ↦ elim (Bool-cases (s.user_id == user.user_id)) [
        | inr f ↦ rw (e, f, chunk_for) (refused not_authorized)
        | inl f ↦
            elim (Bool-cases (lt_int index (pos 0) || not (lt_int index (pos s.total_chunks)))) [
              | inl g ↦ rw (e, f, g, chunk_for) (refused chunk_index_out_of_range)
              | inr g ↦
                  rw (e, f, g, chunk_for)
                    (stream_chunk-Chunks c.req.chunk s refl e
                      ((nat_beq_iff s.user_id user.user_id).0 f))
            ]
      ]
    ]

  abbrev pub call : ChunkCall → FileHandler Db → FileHandler Db × Response
  call c h = upload_chunk c.writes c.is_post c.user c.req h

  reached :
      (c : ChunkCall) (h : FileHandler Db) (user : UserClaims) (index : ℤ)
      → c.is_post ≡ true
      → c.user ≡ some user
      → c.req.parses ≡ true
      → c.req.chunk_index ≡ number index
      → (c.req.session_id == []) ≡ false
      → call c h ≡ chunk_for c.writes user c.req.session_id index c.req.chunk h
  unfolding upload_chunk
  reached c h user index e f g q p = rw (e, f, g, q, p) refl

  -- Every call is a refusal that changes nothing, a failed write that ends the session, or the next
  -- chunk, in its turn, from the owner of the session, which is then sent on every connection.
  pub upload_chunk-Chunks : (c : ChunkCall) (h : FileHandler Db) → Chunks c h (call c h)
  unfolding upload_chunk
  upload_chunk-Chunks c h = elim (Bool-cases c.is_post) [
    | inr e ↦ rw e (refused _)
    | inl e ↦ elim (Option-cases c.user) [
      | inl f ↦ rw (e, f) (refused _)
      | inr (user, f) ↦ elim (Bool-cases c.req.parses) [
        | inr g ↦ rw (e, f, g) (refused _)
        | inl g ↦ elim (index-cases c.req.chunk_index) [
          | inl q ↦ rw (e, f, g, q) (refused _)
          | inr (inl q) ↦ elim (Bool-cases (c.req.session_id == [])) [
            | inl p ↦ rw (e, f, g, q, p) (refused _)
            | inr p ↦ rw (e, f, g, q, p) (refused _)
          ]
          | inr (inr (index, q)) ↦ elim (Bool-cases (c.req.session_id == [])) [
            | inl p ↦ rw (e, f, g, q, p) (refused _)
            | inr p ↦
                subst (Chunks c h) (sym (reached c h user index e f g q p))
                  (chunk_for-Chunks c h user f index q)
          ]
        ]
      ]
    ]
  ]

  chunk_for-stream :
      (c : ChunkCall) (h : FileHandler Db) (user : UserClaims) (s : UploadSession) (bytes : Bytes)
      → lookup c.req.session_id h.sessions ≡ some s
      → s.user_id ≡ user.user_id
      → s.next_chunk < s.total_chunks
      → (write_chunk c.writes bytes s.stream_session).1 ≡ none
      → chunk_for c.writes user c.req.session_id (pos s.next_chunk) (content bytes) h ≡ (
        record h { sessions = insert c.req.session_id (with_chunk bytes s) h.sessions },
        success 200 (chunk_received s.next_chunk (s.next_chunk + 1) s.total_chunks),
      )
  unfolding chunk_for stream_chunk
  chunk_for-stream c h user s bytes e o l w =
      let turn : (pos s.next_chunk == pos s.next_chunk) ≡ true =
        (int_beq_iff (pos s.next_chunk) (pos s.next_chunk)).1 refl in
      let owner : (s.user_id == user.user_id) ≡ true = (nat_beq_iff s.user_id user.user_id).1 o in
      rw (e, owner, in_range s.next_chunk s.total_chunks l, chunk_for)
        (rw (turn, w, stream_chunk, write_chunk-extended c.writes bytes s.stream_session w) refl)

  -- The next chunk of the owner of a session, below the number of chunks, is accepted if it is
  -- written to all connections, and the session has it.
  pub upload_chunk_accepts :
      (c : ChunkCall) (h : FileHandler Db) (user : UserClaims) (s : UploadSession) (bytes : Bytes)
      → c.is_post ≡ true
      → c.user ≡ some user
      → c.req.parses ≡ true
      → c.req.session_id ≢ []
      → lookup c.req.session_id h.sessions ≡ some s
      → s.user_id ≡ user.user_id
      → s.next_chunk < s.total_chunks
      → c.req.chunk_index ≡ number (pos s.next_chunk)
      → c.req.chunk ≡ content bytes
      → (write_chunk c.writes bytes s.stream_session).1 ≡ none
      → call c h ≡ (
        record h { sessions = insert c.req.session_id (with_chunk bytes s) h.sessions },
        success 200 (chunk_received s.next_chunk (s.next_chunk + 1) s.total_chunks),
      )
  upload_chunk_accepts c h user s bytes post known parses named e o l indexed chunk w =
      reached c h user (pos s.next_chunk) post known parses indexed (not_nil c.req.session_id named)
      ∙ ap (λ t. chunk_for c.writes user c.req.session_id (pos s.next_chunk) t h) chunk
      ∙ chunk_for-stream c h user s bytes e o l w
