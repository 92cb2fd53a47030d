-- ===== src/Api/Uploads/Starts.antt =====
-- The start of an upload in chunks in backend/internal/handlers/file_handler.go.
use distributed_file_system.Prelude.{
  ℕ, ◌≡◌, inl, inr, refl, ap, sym, ◌∙◌, Bool, true, false, ◌||◌, [], Option, none, some, Bytes,
  ◌==◌, nat_eq, bytes_eq, bytes_beq_iff, Bool-cases, Option-cases,
}
use distributed_file_system.Prelude.Int.{pos_part}
use distributed_file_system.Prelude.Map.{lookup, lookup-insert}
use distributed_file_system.Common.Types.{NodeId}
use distributed_file_system.Common.Messages.{Json, Message}
use distributed_file_system.Client.{MasterClient, Network}
use distributed_file_system.Client.Upload.{
  Outcome, done, failed, panicked, StreamUploadSession, Opening, open_session, answered_session,
  init_stream_upload,
}
use distributed_file_system.Client.Upload.Contents.{failed_not_done}
use distributed_file_system.Client.Upload.Opened.{open_session-done}
use distributed_file_system.Api.{
  UserClaims, UploadSession, FileHandler, Body, session_started, success,
}
use distributed_file_system.Api.Uploads.{
  ChunkedUploadInitRequest, not_positive, started, put_session, init_chunked_upload,
}
use distributed_file_system.Api.Uploads.Sessions.{success_not_error}

success_injective : {i j : ℕ} {b c : Body} → success i b ≡ success j c → b ≡ c
success_injective h = cc

-- A session as it is created for a request.
abbrev pub IsNew : UserClaims → ChunkedUploadInitRequest → UploadSession → Type 0
IsNew claims req s =
    (s.user_id ≡ claims.user_id)
    × (s.next_chunk ≡ 0)
    × (s.stream_session.bytes_written ≡ 0)
    × (s.stream_session.size ≡ s.file_size)
    × (s.file_size ≡ pos_part req.file_size)
    × (s.total_chunks ≡ pos_part req.total_chunks)

module _ (net : Network) (json : Json) (opens : ℕ → Opening) (request_id : Bytes) where
  open_session-new :
      (file : NodeId) (size : ℕ) (o : Outcome StreamUploadSession) (s : StreamUploadSession)
      → (ready : _) → o ≡ open_session opens file size ready
      → o ≡ done s
      → (s.bytes_written ≡ 0) × (s.size ≡ size)
  open_session-new file size o s ready e f =
      let (n, ns, g, same) = open_session-done opens file size ready s (sym e ∙ f) in
      (ap (λ x. x.bytes_written) same, ap (λ x. x.size) same)

  answered_session-new :
      (file : NodeId) (size : ℕ) (m : Option Message) (s : StreamUploadSession)
      → answered_session json opens file size m ≡ done s
      → (s.bytes_written ≡ 0) × (s.size ≡ size)
  unfolding answered_session
  answered_session-new file size none s e = absurd (failed_not_done e)
  answered_session-new file size (some m) s e = elim (Option-cases (json.upload_ready m.payload)) [
    | inl f ↦ absurd (failed_not_done (rw (f, answered_session) at e))
    | inr (ready, f) ↦
        let same : open_session opens file size ready ≡ done s = rw (f, answered_session) at e in
        open_session-new file size (open_session opens file size ready) s ready refl same
  ]

  init_stream_upload-new :
      (file : NodeId) (filename content_type : Bytes) (size i : ℕ) (c : MasterClient)
      (s : StreamUploadSession)
      → (init_stream_upload net json opens request_id file filename content_type size i c).2
        ≡ done s
      → (s.bytes_written ≡ 0) × (s.size ≡ size)
  unfolding init_stream_upload
  init_stream_upload-new file filename content_type size i c s e =
      answered_session-new file size _ s e

  module _ {Db : Type 0} (file : NodeId) (now : ℕ) (h : FileHandler Db) where
    abbrev pub Starts :
        Option UserClaims → Option ChunkedUploadInitRequest → Body → FileHandler Db → Type 0
    Starts user body b h' =
        (claims : UserClaims) × (req : ChunkedUploadInitRequest) × (s : UploadSession) × (user
          ≡ some claims)
        × (body ≡ some req)
        × (b ≡ session_started s.id)
        × (lookup s.id h'.sessions ≡ some s)
        × IsNew claims req s

    put_session-Starts :
        (claims : UserClaims) (req : ChunkedUploadInitRequest) (content_type : Bytes)
        (g : FileHandler Db) (o : Outcome StreamUploadSession) (code : ℕ) (b : Body)
        → ((s : StreamUploadSession)
            → o ≡ done s
            → (s.bytes_written ≡ 0) × (s.size ≡ pos_part req.file_size))
        → (put_session claims file now req content_type g o).1 ≡ success code b
        → Starts (some claims) (some req) b (put_session claims file now req content_type g o).0
    put_session-Starts claims req content_type g (failed e) code b f q =
        absurd (success_not_error q)
    put_session-Starts claims req content_type g panicked code b f q = absurd cc
    put_session-Starts claims req content_type g (done s) code b f q = (
      claims,
      req,
      started claims.user_id file now req content_type s,
      refl,
      refl,
      sym (success_injective q),
      lookup-insert s.session_id s.session_id _ g.sessions
          ∙ rw ((bytes_beq_iff s.session_id s.session_id).1 refl) refl,
      (refl, refl, (f s refl).0, (f s refl).1, refl, refl),
    )

    -- A request that succeeds has put a new session in the table, under the identifier that it
    -- answers, for the user who asks, with nothing sent and no chunk accepted, and with the size and
    -- the number of chunks that the request names.
    pub init_chunked_upload-Starts :
        (is_post : Bool) (user : Option UserClaims) (body : Option ChunkedUploadInitRequest)
        (code : ℕ) (b : Body)
        → (init_chunked_upload net json opens request_id file now is_post user body h).1
          ≡ success code b
        → Starts user body b
            (init_chunked_upload net json opens request_id file now is_post user body h).0
    unfolding init_chunked_upload
    init_chunked_upload-Starts false user body code b e = absurd (success_not_error e)
    init_chunked_upload-Starts true none body code b e = absurd (success_not_error e)
    init_chunked_upload-Starts true (some claims) none code b e = absurd (success_not_error e)
    init_chunked_upload-Starts true (some claims) (some req) code b e =
        elim (Bool-cases
          (req.file_name == [] || not_positive req.file_size || not_positive req.total_chunks)) [
            | inl f ↦ absurd (success_not_error (rw (f, init_chunked_upload) at e))
            | inr f ↦
                rw (f, init_chunked_upload)
                  (put_session-Starts claims req _ _ _ code b
                    (init_stream_upload-new file req.file_name _ (pos_part req.file_size)
                      h.connected h.client)
                    (rw (f, init_chunked_upload) at e))
          ]
