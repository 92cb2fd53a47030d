-- ===== src/Api/Uploads/Sessions.antt =====
-- The end of an upload in chunks in backend/internal/handlers/file_handler.go, and the clean-up.
use distributed_file_system.Prelude.{
  ℕ, ◌≡◌, ◌≢◌, inl, inr, refl, Bool, true, false, Option, none, some, Bytes, ◌==◌, nat_eq,
  nat_beq_iff, bytes_eq, Bool-cases, Option-cases, sym, ap, ◌∙◌, some_injective, none_not_some,
  true_not_false,
}
use distributed_file_system.Prelude.Map.{lookup, delete}
use distributed_file_system.Client.Upload.{
  UploadError, Outcome, done, failed, panicked, UploadResult, finalize,
}
use distributed_file_system.Client.Upload.Answers.{Finalizes, finalize-Finalizes}
use distributed_file_system.Api.{
  Database, UserClaims, UploadSession, FileHandler, Reason, Response, error, success, Body,
  upload_finalized, not_authorized, not_all_chunks, finalize_failed, create_failed,
  session_not_found,
}
use distributed_file_system.Api.Services.{create_file, create_replicas}
use distributed_file_system.Api.Uploads.{
  file_of, record_file, finalize_session, finalize_chunked_upload,
}

pub success_not_error : {r : Reason} {code : ℕ} {b : Body} → error r ≢ success code b
success_not_error h = cc

-- The owner of a session has sent all chunks, and the storage nodes have confirmed them.
abbrev pub Complete : (ℕ → Bytes → Bytes) → UserClaims → UploadSession → UploadResult → Type 0
Complete responses user s r =
    (s.user_id ≡ user.user_id)
    × (s.next_chunk ≡ s.total_chunks)
    × Finalizes responses s.stream_session r

module _ {Db : Type 0} (sql : Database Db) (responses : ℕ → Bytes → Bytes) where
  -- The state when the file is in the database: the session has left the table.
  abbrev pub recorded_state : Bytes → UploadSession → UploadResult → FileHandler Db → FileHandler Db
  recorded_state id s r h = record h {
    db = (create_replicas sql s.file_id r.node_ids (sql.insert_file h.db (file_of s r)).0).0;
    sessions = delete id h.sessions;
  }

  -- The request names a session that is there, whoever it belongs to.
  abbrev pub Takes :
      Bool
      → Option UserClaims
      → Option Bytes
      → FileHandler Db
      → UserClaims
      → Bytes
      → UploadSession
      → Type 0
  Takes is_post user body h claims id s =
      (is_post ≡ true) × (user ≡ some claims) × (body ≡ some id) × (lookup id h.sessions ≡ some s)

  abbrev pub without : Bytes → FileHandler Db → FileHandler Db
  without id h = record h { sessions = delete id h.sessions }

  -- What a finalization comes to: no session is named, and nothing changes; or the session is taken
  -- out of the table. Then it is another user's, or some chunk is missing, or the storage nodes do
  -- not confirm it, and nothing else changes; or the database refuses the file; or it takes the file.
  pub data Finalization (is_post : Bool) (user : Option UserClaims) (body : Option Bytes)
      (h : FileHandler Db) : FileHandler Db × Response → Type 0 where
    refused :
        (r : Reason)
        → ((claims : UserClaims) (id : Bytes) (s : UploadSession)
            → ¬ Takes is_post user body h claims id s)
        → Finalization is_post user body h (h, error r)
    not_owner :
        (claims : UserClaims) (id : Bytes) (s : UploadSession)
        → Takes is_post user body h claims id s
        → s.user_id ≢ claims.user_id
        → Finalization is_post user body h (without id h, error not_authorized)
    incomplete :
        (claims : UserClaims) (id : Bytes) (s : UploadSession)
        → Takes is_post user body h claims id s
        → s.user_id ≡ claims.user_id
        → s.next_chunk ≢ s.total_chunks
        → Finalization is_post user body h
            (without id h, error (not_all_chunks s.next_chunk s.total_chunks))
    unconfirmed :
        (claims : UserClaims) (id : Bytes) (s : UploadSession) (e : UploadError)
        → Takes is_post user body h claims id s
        → s.user_id ≡ claims.user_id
        → s.next_chunk ≡ s.total_chunks
        → finalize responses s.stream_session ≡ failed e
        → Finalization is_post user body h (without id h, error (finalize_failed e))
    crashed :
        (claims : UserClaims) (id : Bytes) (s : UploadSession)
        → Takes is_post user body h claims id s
        → s.user_id ≡ claims.user_id
        → s.next_chunk ≡ s.total_chunks
        → finalize responses s.stream_session ≡ panicked
        → Finalization is_post user body h (without id h, Response.panicked)
    unrecorded :
        (claims : UserClaims) (id : Bytes) (s : UploadSession) (r : UploadResult)
        → Takes is_post user body h claims id s
        → Complete responses claims s r
        → Finalization is_post user body h (
          record h { db = (sql.insert_file h.db (file_of s r)).0; sessions = delete id h.sessions },
          error create_failed,
        )
    recorded :
        (claims : UserClaims) (id : Bytes) (s : UploadSession) (r : UploadResult)
        → Takes is_post user body h claims id s
        → Complete responses claims s r
        → (sql.insert_file h.db (file_of s r)).1 ≡ true
        → Finalization is_post user body h (
          recorded_state id s r h,
          success 202 (
              upload_finalized
                (record { id = s.file_id; filename = s.file_name; size = s.file_size })),
        )

  module _ (is_post : Bool) (user : Option UserClaims) (body : Option Bytes) (h : FileHandler Db)
      (claims : UserClaims) (id : Bytes) (s : UploadSession)
      (taken : Takes is_post user body h claims id s) where
    record_file-Finalization :
        (r : UploadResult)
        → Complete responses claims s r
        → Finalization is_post user body h (record_file sql s r (without id h))
    unfolding record_file create_file
    record_file-Finalization r full = elim (Bool-cases (sql.insert_file h.db (file_of s r)).1) [
      | inr e ↦ rw (e, record_file) (unrecorded claims id s r taken full)
      | inl e ↦ rw (e, record_file) (recorded claims id s r taken full e)
    ]

    finalized-Finalization :
        (o : Outcome UploadResult)
        → finalize responses s.stream_session ≡ o
        → s.user_id ≡ claims.user_id
        → s.next_chunk ≡ s.total_chunks
        → Finalization is_post user body h (elim o [
          | failed e ↦ (without id h, error (finalize_failed e))
          | panicked ↦ (without id h, Response.panicked)
          | done r ↦ record_file sql s r (without id h)
        ])
    finalized-Finalization (failed e) f own all = unconfirmed claims id s e taken own all f
    finalized-Finalization panicked f own all = crashed claims id s taken own all f
    finalized-Finalization (done r) f own all =
        record_file-Finalization r (own, all, finalize-Finalizes responses s.stream_session r f)

    finalize_session-Finalization :
        Finalization is_post user body h (finalize_session sql responses claims s (without id h))
    unfolding finalize_session
    finalize_session-Finalization = elim (Bool-cases (s.user_id == claims.user_id)) [
      | inr e ↦
          rw (e, finalize_session)
            (not_owner claims id s taken
              (λ q. true_not_false (sym ((nat_beq_iff s.user_id claims.user_id).1 q) ∙ e)))
      | inl e ↦ elim (Bool-cases (s.next_chunk == s.total_chunks)) [
        | inr f ↦
            rw (e, f, finalize_session)
              (incomplete claims id s taken ((nat_beq_iff s.user_id claims.user_id).0 e)
                (λ q. true_not_false (sym ((nat_beq_iff s.next_chunk s.total_chunks).1 q) ∙ f)))
        | inl f ↦
            rw (e, f, finalize_session)
              (finalized-Finalization (finalize responses s.stream_session) refl
                ((nat_beq_iff s.user_id claims.user_id).0 e)
                ((nat_beq_iff s.next_chunk s.total_chunks).0 f))
      ]
    ]

  -- Every finalization is of one of these kinds. If the request is a POST of a known user and names
  -- a session that is there, the session leaves the table, whoever asks for it: also if it belongs to
  -- another user, if a chunk is missing or if the storage nodes do not confirm it, and then nothing
  -- else changes. The file is put in the database only for its owner, with all chunks, as the storage
  -- nodes have confirmed it. Any other request changes nothing.
  pub finalize_chunked_upload-Finalization :
      (is_post : Bool) (user : Option UserClaims) (body : Option Bytes) (h : FileHandler Db)
      → Finalization is_post user body h (finalize_chunked_upload sql responses is_post user body h)
  unfolding finalize_chunked_upload
  finalize_chunked_upload-Finalization false user body h = refused _ (λ c i s t. cc (t.0))
  finalize_chunked_upload-Finalization true none body h = refused _ (λ c i s t. cc (t.1))
  finalize_chunked_upload-Finalization true (some claims) none h = refused _ (λ c i s t. cc (t.2))
  finalize_chunked_upload-Finalization true (some claims) (some id) h =
      elim (Option-cases (lookup id h.sessions)) [
        | inl e ↦ rw e (
            refused session_not_found (λ c i s t.
              none_not_some (sym e ∙ ap (λ z. lookup z h.sessions) (some_injective t.2) ∙ t.3)))
        | inr (s, e) ↦ rw e (
            finalize_session-Finalization true (some claims) (some id) h claims id s
              (refl, refl, refl, e))
      ]
