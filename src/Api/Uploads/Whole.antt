-- ===== src/Api/Uploads/Whole.antt =====
-- Uploads in chunks of backend/internal/handlers/file_handler.go from the first call to the last.
use distributed_file_system.Prelude.{
  ℕ, ◌≡◌, inl, inr, ap, sym, ◌∙◌, subst, Bool, true, List, Option, none, some, Bytes, length,
  nat_eq, bytes_eq, bytes_beq_iff, arith, none_not_some, some_injective,
}
use distributed_file_system.Prelude.Map.{lookup, delete, lookup-delete}
use distributed_file_system.Client.Upload.{UploadResult}
use distributed_file_system.Client.Upload.Contents.{extended}
use distributed_file_system.Client.Upload.Answers.{Finalizes}
use distributed_file_system.Api.{
  Database, UserClaims, UploadSession, FileHandler, Response, success, Body,
}
use distributed_file_system.Api.Files.{QueryNumber}
use distributed_file_system.Api.Uploads.{file_of, finalize_chunked_upload}
use distributed_file_system.Api.Uploads.Chunks.{ChunkCall}
use distributed_file_system.Api.Uploads.Runs.{
  accepted, Numbered, contents, with_chunks, run_chunks, run_chunks-Became,
}
use distributed_file_system.Api.Uploads.Sessions.{
  success_not_error, Complete, Finalization, recorded_state, refused, not_owner, incomplete,
  unconfirmed, crashed, unrecorded, recorded, finalize_chunked_upload-Finalization,
}

module _ {Db : Type 0} (sql : Database Db) (responses : ℕ → Bytes → Bytes) where
  module _ (cs : List ChunkCall) (h : FileHandler Db) (id : Bytes) (s : UploadSession)
      (user : Option UserClaims) (there : lookup id h.sessions ≡ some s) (fresh : s.next_chunk ≡ 0)
      (empty : s.stream_session.bytes_written ≡ 0)
      (sized : s.stream_session.size ≡ s.file_size) where
    abbrev chunks : List (QueryNumber × Bytes)
    chunks = accepted id cs (run_chunks cs h).1

    -- The session that the run leaves, if the finalization finds one.
    left_by_run :
        (t : UploadSession)
        → lookup id (run_chunks cs h).0.sessions ≡ some t
        → (t ≡ with_chunks chunks s) × Numbered s.next_chunk chunks
    left_by_run t e = elim (run_chunks-Became id cs h s there) [
      | inl gone ↦ absurd (none_not_some (sym gone ∙ e))
      | inr found ↦ (some_injective (sym e ∙ found.0), found.1)
    ]

    abbrev AllDone : FileHandler Db × Response → Type 0
    AllDone end =
        (length chunks ≡ s.total_chunks)
        × Numbered 0 chunks
        × (length (contents chunks) ≡ s.file_size)
        × (lookup id end.0.sessions ≡ none)
        × ((claims : UserClaims) × (r : UploadResult) × (user ≡ some claims)
            × (claims.user_id ≡ s.user_id)
            × Finalizes responses (extended (contents chunks) s.stream_session) r
            × ((sql.insert_file (run_chunks cs h).0.db (file_of s r)).1 ≡ true))

    all_done :
        (claims : UserClaims) (r : UploadResult) (t : UploadSession)
        → user ≡ some claims
        → lookup id (run_chunks cs h).0.sessions ≡ some t
        → Complete responses claims t r
        → (sql.insert_file (run_chunks cs h).0.db (file_of t r)).1 ≡ true
        → AllDone (recorded_state sql responses id t r (run_chunks cs h).0, Response.panicked)
    all_done claims r t u e full put =
        let (same, numbered) = left_by_run t e in
        let (owner, all, final) = subst (λ x. Complete responses claims x r) same full in
        (
          omega (arith, all, fresh),
          subst (λ n. Numbered n chunks) fresh numbered,
          omega (arith, final.0, empty, sized),
          lookup-delete id id (run_chunks cs h).0.sessions ∙ ground (arith, bytes_beq_iff id id),
          (
            claims,
            r,
            u,
            sym owner,
            final,
            subst (λ x. (sql.insert_file (run_chunks cs h).0.db (file_of x r)).1 ≡ true) same put,
          ),
        )

    finished_run :
        (is_post : Bool) (code : ℕ) (b : Body) {end : FileHandler Db × Response}
        → Finalization sql responses is_post user (some id) (run_chunks cs h).0 end
        → end.1 ≡ success code b
        → AllDone end
    finished_run is_post code b (refused r other) q = absurd (success_not_error q)
    finished_run is_post code b (not_owner claims i t k ne) q = absurd (success_not_error q)
    finished_run is_post code b (incomplete claims i t k own ne) q = absurd (success_not_error q)
    finished_run is_post code b (unconfirmed claims i t e k own all f) q =
        absurd (success_not_error q)
    finished_run is_post code b (crashed claims i t k own all f) q = absurd cc
    finished_run is_post code b (unrecorded claims i t r k full) q = absurd (success_not_error q)
    finished_run is_post code b (recorded claims i t r (post, u, e, f) full put) q =
        let same : i ≡ id = some_injective (sym e) in
        let done_at =
          all_done claims r t u (ap (λ x. lookup x (run_chunks cs h).0.sessions) (sym same) ∙ f)
            full put in
        (
          done_at.0,
          done_at.1,
          done_at.2,
          ap (λ x. lookup id (delete x (run_chunks cs h).0.sessions)) same ∙ done_at.3,
          done_at.4,
        )

  -- An upload in chunks from the first call to the last. If a session is as it was created, some
  -- calls of `UploadChunk` are made, in any order and by anybody, and then the finalization
  -- succeeds, then the accepted chunks are all the chunks of the session, in the order of their
  -- indices from 0, their bytes make up the size of the file, each connection was sent exactly
  -- these bytes and has confirmed them, and the file that the database took has this size and the
  -- hash that the storage nodes name, for the user who finalizes, who is the owner of the session.
  -- The session is gone.
  pub finalize-run_chunks :
      (cs : List ChunkCall) (h : FileHandler Db) (id : Bytes) (s : UploadSession) (is_post : Bool)
      (user : Option UserClaims) (code : ℕ) (b : Body)
      → lookup id h.sessions ≡ some s
      → s.next_chunk ≡ 0
      → s.stream_session.bytes_written ≡ 0
      → s.stream_session.size ≡ s.file_size
      → let run = run_chunks cs h in
        let l = accepted id cs run.1 in
        let t = extended (contents l) s.stream_session in
        let end = finalize_chunked_upload sql responses is_post user (some id) run.0 in
        end.1 ≡ success code b
        → (length l ≡ s.total_chunks)
          × Numbered 0 l
          × (length (contents l) ≡ s.file_size)
          × (lookup id end.0.sessions ≡ none)
          × ((claims : UserClaims) × (r : UploadResult) × (user ≡ some claims)
              × (claims.user_id ≡ s.user_id)
              × Finalizes responses t r
              × ((sql.insert_file run.0.db (file_of s r)).1 ≡ true))
  finalize-run_chunks cs h id s is_post user code b there fresh empty sized ok =
      finished_run cs h id s user there fresh empty sized is_post code b
        (finalize_chunked_upload-Finalization sql responses is_post user (some id)
          (run_chunks cs h).0)
        ok
