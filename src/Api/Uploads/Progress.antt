-- ===== src/Api/Uploads/Progress.antt =====
-- An owner sends the chunks of an upload in their order: `UploadChunk` of
-- backend/internal/handlers/file_handler.go.
use distributed_file_system.Prelude.{
  ℕ, ◌+◌, ◌≤◌, ◌<◌, ◌≡◌, ◌≢◌, refl, sym, ap, ◌∙◌, true, List, [], ◌∷◌, ◌++◌, none, some, Bytes,
  length, bytes_eq, bytes_beq_iff, arith, if◌then◌else◌, ◌==◌, nat_eq, Bool-cases, inl, inr,
}
use distributed_file_system.Prelude.Int.{pos}
use distributed_file_system.Prelude.Map.{lookup, insert, lookup-insert}
use distributed_file_system.Client.Upload.{
  wrote, Connection, StreamUploadSession, write_one, write_loop, write_chunk,
}
use distributed_file_system.Client.Upload.Contents.{extended, extended_twice, extended_nothing}
use distributed_file_system.Api.{
  UserClaims, UploadSession, FileHandler, Response, success, chunk_received,
}
use distributed_file_system.Api.Files.{number}
use distributed_file_system.Api.Uploads.{content}
use distributed_file_system.Api.Uploads.Chunks.{ChunkCall, with_chunk, call, upload_chunk_accepts}
use distributed_file_system.Api.Uploads.Runs.{run_chunks}

abbrev pub one_call : UserClaims → Bytes → ℕ → Bytes → ChunkCall
one_call user id n bytes = record {
  writes = λ i. wrote (length bytes);
  is_post = true;
  user = some user;
  req = record {
    parses = true;
    session_id = id;
    chunk_index = number (pos n);
    chunk = content bytes;
  };
}

-- The calls with which a user sends chunks from an index on, when each connection takes every chunk
-- whole.
abbrev pub sending : UserClaims → Bytes → ℕ → List Bytes → List ChunkCall
sending user id n [] = []
sending user id n (bytes ∷ chunks) = one_call user id n bytes ∷ sending user id (n + 1) chunks

-- What each of them is answered.
abbrev pub all_received : ℕ → ℕ → List Bytes → List Response
all_received n total [] = []
all_received n total (bytes ∷ chunks) =
    success 200 (chunk_received n (n + 1) total) ∷ all_received (n + 1) total chunks

abbrev pub joined : List Bytes → Bytes
joined [] = []
joined (bytes ∷ chunks) = bytes ++ joined chunks

-- The session once it has all chunks.
abbrev pub advanced : List Bytes → UploadSession → UploadSession
advanced chunks s = record s {
  stream_session = extended (joined chunks) s.stream_session;
  next_chunk = s.next_chunk + length chunks;
}

written_whole :
    (bytes : Bytes) (i : ℕ) (cs : List Connection)
    → (write_loop (λ k. wrote (length bytes)) bytes i cs).1 ≡ none
unfolding write_loop write_one
written_whole bytes i [] = refl
written_whole bytes i (c ∷ cs) = ground (arith, written_whole bytes (i + 1) cs)

write_chunk_whole :
    (bytes : Bytes) (s : StreamUploadSession)
    → (write_chunk (λ k. wrote (length bytes)) bytes s).1 ≡ none
unfolding write_chunk
write_chunk_whole bytes s = rw (written_whole bytes 0 s.connections, write_chunk) refl

advanced_none : (s : UploadSession) → s ≡ advanced [] s
advanced_none s =
    let next : s.next_chunk ≡ s.next_chunk + 0 = omega arith in
    λ i. record s {
      stream_session = sym (extended_nothing s.stream_session) i;
      next_chunk = next i;
    }

advanced_more :
    (bytes : Bytes) (chunks : List Bytes) (s : UploadSession)
    → advanced chunks (with_chunk bytes s) ≡ advanced (bytes ∷ chunks) s
advanced_more bytes chunks s =
    let next : s.next_chunk + 1 + length chunks ≡ s.next_chunk + length (bytes ∷ chunks) =
      omega arith in
    λ i. record s {
      stream_session = extended_twice bytes (joined chunks) s.stream_session i;
      next_chunk = next i;
    }

module _ {Db : Type 0} where
  abbrev with_one : Bytes → Bytes → UploadSession → FileHandler Db → FileHandler Db
  with_one id bytes s h = record h { sessions = insert id (with_chunk bytes s) h.sessions }

  first_call :
      (user : UserClaims) (id bytes : Bytes) (h : FileHandler Db) (s : UploadSession)
      → id ≢ []
      → lookup id h.sessions ≡ some s
      → s.user_id ≡ user.user_id
      → s.next_chunk < s.total_chunks
      → call (one_call user id s.next_chunk bytes) h ≡ (
        with_one id bytes s h,
        success 200 (chunk_received s.next_chunk (s.next_chunk + 1) s.total_chunks),
      )
  first_call user id bytes h s named e o l =
      upload_chunk_accepts (one_call user id s.next_chunk bytes) h user s bytes refl refl refl named
        e o l refl refl (write_chunk_whole bytes s.stream_session)

  -- A later state of the session under its identifier hides the one before.
  below :
      (k id : Bytes) (now before : UploadSession) (h : FileHandler Db)
      → (if id == k then some now else lookup k (insert id before h.sessions))
        ≡ (if id == k then some now else lookup k h.sessions)
  below k id now before h = elim (Bool-cases (id == k)) [
    | inl q ↦ rw q refl
    | inr q ↦ rw q (lookup-insert id k before h.sessions ∙ rw q refl)
  ]

  -- The owner of a session sends chunks in their order, no more than the session still wants, and
  -- the connections take them whole. Then every one of them is accepted, with its index and the
  -- number of chunks so far; the session ends up with all their bytes, one after the other, on every
  -- connection, and wants as many chunks less; and every other session stays as it is.
  pub run_chunks-sending :
      (user : UserClaims) (id : Bytes) (chunks : List Bytes) (h : FileHandler Db)
      (s : UploadSession)
      → id ≢ []
      → lookup id h.sessions ≡ some s
      → s.user_id ≡ user.user_id
      → s.next_chunk + length chunks ≤ s.total_chunks
      → let r = run_chunks (sending user id s.next_chunk chunks) h in
        (r.1 ≡ all_received s.next_chunk s.total_chunks chunks)
        × ((k : Bytes)
            → lookup k r.0.sessions
              ≡ (if id == k then some (advanced chunks s) else lookup k h.sessions))
  unfolding run_chunks
  run_chunks-sending user id [] h s named e o l = (
    refl,
    λ k. elim (Bool-cases (id == k)) [
      | inl q ↦
          ap (λ z. lookup z h.sessions) (sym ((bytes_beq_iff id k).0 q))
          ∙ e
          ∙ ap some (advanced_none s)
          ∙ rw q refl
      | inr q ↦ rw q refl
    ],
  )
  run_chunks-sending user id (bytes ∷ chunks) h s named e o l =
      let first = first_call user id bytes h s named e o (omega arith) in
      let there : lookup id (with_one id bytes s h).sessions ≡ some (with_chunk bytes s) =
        lookup-insert id id (with_chunk bytes s) h.sessions
        ∙ rw ((bytes_beq_iff id id).1 refl) refl in
      let (answers, found) =
        run_chunks-sending user id chunks (with_one id bytes s h) (with_chunk bytes s) named there o
          (omega (arith, l)) in
      (
        rw first (
            ap
              (λ rs.
                success 200 (chunk_received s.next_chunk (s.next_chunk + 1) s.total_chunks) ∷ rs)
              answers),
        λ k.
            ap
              (λ r.
                lookup k (run_chunks (sending user id (s.next_chunk + 1) chunks) r.0).0.sessions)
              first
            ∙ found k
            ∙ ap (λ z. if id == k then some z else lookup k (with_one id bytes s h).sessions)
                (advanced_more bytes chunks s)
            ∙ below k id (advanced (bytes ∷ chunks) s) (with_chunk bytes s) h,
      )
