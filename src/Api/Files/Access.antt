-- ===== src/Api/Files/Access.antt =====
-- Who may read and delete a file through backend/internal/handlers/file_handler.go.
use distributed_file_system.Prelude.{
  ℕ, ◌≡◌, ◌⊎◌, inl, inr, refl, ap, sym, ◌∙◌, Bool, true, false, not, Option, none, some, Bytes,
  if◌then◌else◌, ◌==◌, nat_eq, nat_beq_iff, bytes_eq, bytes_beq_iff, Bool-cases, Option-cases,
  some_injective, true_not_false,
}
use distributed_file_system.Common.Types.{NodeId, ApiFileDeleteResponse}
use distributed_file_system.Common.Messages.{Json}
use distributed_file_system.Client.{MasterClient, Network, request_delete}
use distributed_file_system.Client.Upload.{Write}
use distributed_file_system.Client.Download.{Contact, download_file_stream}
use distributed_file_system.Api.{
  File, Database, UserClaims, FileHandler, Reason, forbidden, file_not_found, delete_failed,
  deleted, attachment, Response, error, success, admin,
}
use distributed_file_system.Api.Services.{get_file_by_id, delete_file_by_id}
use distributed_file_system.Api.Files.{
  PathId, parsed, Found, denied, granted, find_file, get_file, delete_file,
}

-- The claims of the request are those of the owner of the file, or of an administrator, and the file
-- is the one that the path names.
abbrev pub MayAccess : {Db : Type 0} → Database Db → Option UserClaims → PathId → Db → File → Type 0
MayAccess sql user id db file =
    (claims : UserClaims) × (i : NodeId) × (user ≡ some claims)
    × (id ≡ parsed i)
    × (get_file_by_id sql i db ≡ some file)
    × ((file.owner_id ≡ claims.user_id) ⊎ (claims.role ≡ admin))

parsed_injective : {i j : NodeId} → parsed i ≡ parsed j → i ≡ j
parsed_injective h = cc

nobody :
    {Db : Type 0} (sql : Database Db) (id : PathId) (db : Db) (file : File)
    → ¬ MayAccess sql none id db file
nobody sql id db file a = cc (a.2)

module _ {Db : Type 0} (sql : Database Db) where
  -- What the checks of a handler come to.
  data Checked (user : Option UserClaims) (id : PathId) (db : Db) : Found → Type 0 where
    stopped :
        (r : Reason)
        → ((file : File) → ¬ MayAccess sql user id db file)
        → Checked user id db (denied r)
    allowed : (file : File) → MayAccess sql user id db file → Checked user id db (granted file)

  not_found :
      (claims : UserClaims) (i : NodeId) (db : Db)
      → get_file_by_id sql i db ≡ none
      → (file : File) → ¬ MayAccess sql (some claims) (parsed i) db file
  not_found claims i db e file (c, j, u, p, found, a) =
      let same : i ≡ j = parsed_injective p in absurd cc

  not_allowed :
      (claims : UserClaims) (i : NodeId) (db : Db) (file : File)
      → get_file_by_id sql i db ≡ some file
      → (file.owner_id == claims.user_id) ≡ false
      → (claims.role == admin) ≡ false
      → (other : File) → ¬ MayAccess sql (some claims) (parsed i) db other
  not_allowed claims i db file e f g other (c, j, u, p, found, a) =
      let same : file ≡ other =
        some_injective (sym e ∙ ap (λ k. get_file_by_id sql k db) (parsed_injective p) ∙ found) in
      let who : claims ≡ c = some_injective u in
      elim a [
        | inl o ↦ true_not_false (
            sym (
              (nat_beq_iff file.owner_id claims.user_id).1
                (ap (λ x. x.owner_id) same ∙ o ∙ sym (ap (λ x. x.user_id) who)))
            ∙ f)
        | inr r ↦
            true_not_false
              (sym ((bytes_beq_iff claims.role admin).1 (ap (λ x. x.role) who ∙ r)) ∙ g)
      ]

  find_file-Checked :
      (claims : UserClaims) (id : PathId) (db : Db)
      → Checked (some claims) id db (find_file sql claims id db)
  unfolding find_file
  find_file-Checked claims PathId.missing db = stopped _ (λ file a. cc (a.3))
  find_file-Checked claims PathId.malformed db = stopped _ (λ file a. cc (a.3))
  find_file-Checked claims (parsed i) db = elim (Option-cases (get_file_by_id sql i db)) [
    | inl e ↦ rw (e, find_file) (stopped file_not_found (λ file a. not_found claims i db e file a))
    | inr (file, e) ↦ elim (Bool-cases (file.owner_id == claims.user_id)) [
      | inl f ↦
          rw (e, f, find_file)
            (allowed file
              (claims, i, refl, refl, e, inl ((nat_beq_iff file.owner_id claims.user_id).0 f)))
      | inr f ↦ elim (Bool-cases (claims.role == admin)) [
        | inl g ↦
            rw (e, f, g, find_file)
              (allowed file (claims, i, refl, refl, e, inr ((bytes_beq_iff claims.role admin).0 g)))
        | inr g ↦
            rw (e, f, g, find_file)
              (stopped forbidden (λ other a. not_allowed claims i db file e f g other a))
      ]
    ]
  ]

  module _ (net : Network) (json : Json) (request_id : Bytes) where
    abbrev pub asked : File → FileHandler Db → ℕ × MasterClient × Option ApiFileDeleteResponse
    asked file h = request_delete net json request_id file.id file.hash h.connected h.client

    -- What a deletion comes to: it changes nothing, the database fails, or the row of a file to
    -- which the request has access is deleted, and then the storage is asked to delete it.
    pub data Deletes (is_delete : Bool) (user : Option UserClaims) (id : PathId)
        (h : FileHandler Db) : FileHandler Db × Response → Type 0 where
      refused :
          (r : Reason)
          → (is_delete ≡ true → (file : File) → ¬ MayAccess sql user id h.db file)
          → Deletes is_delete user id h (h, error r)
      kept :
          (file : File)
          → MayAccess sql user id h.db file
          → Deletes is_delete user id h
              (record h { db = (sql.delete_from_files h.db file.id).0 }, error delete_failed)
      removed :
          (file : File)
          → MayAccess sql user id h.db file
          → (sql.delete_from_files h.db file.id).1 ≡ true
          → Deletes is_delete user id h (
            record h {
              db = (sql.delete_from_files h.db file.id).0;
              client = (asked file h).1;
              connected = (asked file h).0;
            },
            success 200 (deleted file.id),
          )

    -- What `DeleteFile` does once its checks are made.
    abbrev delete_found : FileHandler Db → Found → FileHandler Db × Response
    delete_found h (denied r) = (h, error r)
    delete_found h (granted file) =
        let (db, fine) = delete_file_by_id sql file.id h.db in
        if not fine
        then (record h { db = db }, error delete_failed)
        else let (i, c, r) =
            request_delete net json request_id file.id file.hash h.connected h.client in
          (record h { db = db; client = c; connected = i }, success 200 (deleted file.id))

    delete_found-Deletes :
        (user : Option UserClaims) (id : PathId) (h : FileHandler Db) {found : Found}
        → Checked user id h.db found
        → Deletes true user id h (delete_found h found)
    unfolding delete_file_by_id
    delete_found-Deletes user id h (stopped r f) = Deletes.refused r (λ _. f)
    delete_found-Deletes user id h (allowed file a) =
        elim (Bool-cases (sql.delete_from_files h.db file.id).1) [
          | inr e ↦ rw e (kept file a)
          | inl e ↦ rw e (removed file a e)
        ]

    -- A file is deleted only if it is the one that the path names and the request is its owner's or
    -- an administrator's. Any other request leaves the database and the client as they are.
    pub delete_file-Deletes :
        (is_delete : Bool) (user : Option UserClaims) (id : PathId) (h : FileHandler Db)
        → Deletes is_delete user id h (delete_file sql net json request_id is_delete user id h)
    unfolding delete_file
    delete_file-Deletes false user id h = Deletes.refused _ (λ e. absurd cc)
    delete_file-Deletes true none id h = Deletes.refused _ (λ _. nobody sql id h.db)
    delete_file-Deletes true (some claims) id h =
        delete_found-Deletes (some claims) id h (find_file-Checked claims id h.db)

    module _ (contact : Bytes → Contact) (serve : Bytes → Bytes → Bytes) (reads : ℕ → ℕ)
        (ends : Bool) (sink : ℕ → Bytes → Write) (sum : Bytes → Bytes) where
      abbrev pub sending : File → FileHandler Db → FileHandler Db × Response
      sending file h =
          let d =
            download_file_stream contact serve reads ends sink sum net json request_id file.id
              file.hash h.connected h.client in
          (
            record h { client = d.1; connected = d.0 },
            success 200 (attachment file.name file.content_type file.size d.2.0 d.2.1),
          )

      -- What a request for a file comes to: nothing but a reason, or the download of a file to
      -- which it has access, under the name, type and size of the row.
      pub data Sends (is_get : Bool) (user : Option UserClaims) (id : PathId) (h : FileHandler Db)
          : FileHandler Db × Response → Type 0 where
        refused :
            (r : Reason)
            → (is_get ≡ true → (file : File) → ¬ MayAccess sql user id h.db file)
            → Sends is_get user id h (h, error r)
        sent :
            (file : File)
            → MayAccess sql user id h.db file
            → Sends is_get user id h (sending file h)

      abbrev send_found : FileHandler Db → Found → FileHandler Db × Response
      send_found h (denied r) = (h, error r)
      send_found h (granted file) = sending file h

      send_found-Sends :
          (user : Option UserClaims) (id : PathId) (h : FileHandler Db) {found : Found}
          → Checked user id h.db found
          → Sends true user id h (send_found h found)
      send_found-Sends user id h (stopped r f) = Sends.refused r (λ _. f)
      send_found-Sends user id h (allowed file a) = sent file a

      -- The bytes of a file are sent only if it is the one that the path names and the request is
      -- its owner's or an administrator's. Any other request makes no connection.
      pub get_file-Sends :
          (is_get : Bool) (user : Option UserClaims) (id : PathId) (h : FileHandler Db)
          → Sends is_get user id h
              (get_file sql net json contact serve reads ends sink sum request_id is_get user id h)
      unfolding get_file
      get_file-Sends false user id h = Sends.refused _ (λ e. absurd cc)
      get_file-Sends true none id h = Sends.refused _ (λ _. nobody sql id h.db)
      get_file-Sends true (some claims) id h =
          send_found-Sends (some claims) id h (find_file-Checked claims id h.db)
