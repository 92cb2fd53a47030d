-- ===== src/Api/Files.antt =====
-- backend/internal/handlers/file_handler.go: the handlers that list, describe, send and delete files
-- and describe the nodes.
pub mod Access
use distributed_file_system.Prelude.{
  ℕ, zero, suc, ◌+◌, Bool, true, false, not, ◌&&◌, List, [], ◌∷◌, Option, none, some, Bytes, map,
  if◌then◌else◌, ◌==◌, nat_eq, bytes_eq,
}
use distributed_file_system.Prelude.Int.{ℤ, pos, negsuc}
use distributed_file_system.Common.Types.{NodeId, Uuid, NodeInfo, ApiFileDeleteResponse}
use distributed_file_system.Common.Messages.{Json}
use distributed_file_system.Client.{MasterClient, Network, get_storage_nodes, request_delete}
use distributed_file_system.Client.Upload.{Write}
use distributed_file_system.Client.Download.{Contact, DownloadError, download_file_stream}
use distributed_file_system.Api.{
  File, Database, UserClaims, FileHandler, Reason, not_authenticated, missing_file_id,
  invalid_file_id, missing_node_id, forbidden, file_not_found, node_not_found, list_failed,
  nodes_failed, delete_failed, FileItem, FileListResponse, Body, file_list, file_item, node_list,
  node_info, deleted, attachment, Response, error, success, guarded, admin,
}
use distributed_file_system.Api.Services.{get_file_by_id, delete_file_by_id, list_files_paginated}

-- A number in the query: missing, not a number, or one.
pub data QueryNumber : Type 0 where
  missing malformed : QueryNumber
  number : ℤ → QueryNumber

-- An identifier in the path.
pub data PathId : Type 0 where
  missing malformed : PathId
  parsed : NodeId → PathId

abbrev pub positive_or : ℕ → QueryNumber → ℕ
positive_or default (QueryNumber.number (pos (suc n))) = suc n
positive_or default _ = default

abbrev pub list_item : File → FileItem
list_item f = record {
  id = f.id;
  filename = f.name;
  size = f.size;
  content_type = f.content_type;
  hash = f.hash;
  owner_id = f.owner_id;
  created_at = f.created_at;
  updated_at = f.updated_at;
  replicas_count = f.replicas_count;
}

abbrev pub metadata_item : File → FileItem
metadata_item f = record {
  id = f.id;
  filename = f.name;
  size = f.size;
  content_type = f.content_type;
  hash = f.hash;
  owner_id = f.owner_id;
  created_at = f.created_at;
  updated_at = f.updated_at;
  replicas_count = 0;
}

pub data Found : Type 0 where
  denied : Reason → Found
  granted : File → Found

-- The loop of `GetNode`.
unfoldable pub find_node : Uuid → Bytes → List NodeInfo → Option NodeInfo
find_node uuid text [] = none
find_node uuid text (node ∷ nodes) =
    if uuid.string node.id == text then some node else find_node uuid text nodes

module _ {Db : Type 0} (sql : Database Db) where
  unfoldable pub list_files :
      Bool → Option UserClaims → QueryNumber → QueryNumber → FileHandler Db → Response
  list_files is_get user page per_page h = guarded is_get user error (λ claims.
      let page : ℕ = positive_or 1 page in
      let per_page : ℕ = positive_or 10 per_page in
      elim (list_files_paginated sql claims.user_id (pos page) (pos per_page) h.db) [
        | none ↦ error list_failed
        | some (files, total) ↦ success 200 (
            file_list (record {
              files = map list_item files;
              total = total;
              page = page;
              per_page = per_page;
            }))
      ])

  -- The checks that `GetFileMetadata`, `GetFile` and `DeleteFile` make before they act on a file.
  unfoldable pub find_file : UserClaims → PathId → Db → Found
  unfolding get_file_by_id
  find_file claims PathId.missing db = denied missing_file_id
  find_file claims PathId.malformed db = denied invalid_file_id
  find_file claims (parsed id) db = elim (get_file_by_id sql id db) [
    | none ↦ denied file_not_found
    | some file ↦
        if not (file.owner_id == claims.user_id) && not (claims.role == admin)
        then denied forbidden
        else granted file
  ]

  unfoldable pub get_file_metadata : Bool → Option UserClaims → PathId → FileHandler Db → Response
  unfolding find_file
  get_file_metadata is_get user id h = guarded is_get user error (λ claims.
      elim (find_file claims id h.db) [
        | denied r ↦ error r
        | granted file ↦ success 200 (file_item (metadata_item file))
      ])

  module _ (net : Network) (json : Json) where
    abbrev pub with_nodes : FileHandler Db → (List NodeInfo → Response) → FileHandler Db × Response
    with_nodes h serve =
        let (i, c, r) = get_storage_nodes net json h.connected h.client in
        (
          record h { client = c; connected = i },
          elim r [ none ↦ error nodes_failed | some nodes ↦ serve nodes ],
        )

    unfoldable pub get_nodes : Bool → Option UserClaims → FileHandler Db → FileHandler Db × Response
    get_nodes is_get user h =
        guarded is_get user (λ r. (h, error r))
          (λ claims. with_nodes h (λ nodes. success 200 (node_list nodes)))

    -- A missing identifier is the empty text.
    unfoldable pub get_node :
        Uuid → Bool → Option UserClaims → Bytes → FileHandler Db → FileHandler Db × Response
    unfolding find_node
    get_node uuid is_get user id h =
        guarded is_get user (λ r. (h, error r))
          (λ claims. with_nodes h (λ nodes.
            if id == [] then error missing_node_id else elim (find_node uuid id nodes) [
              | none ↦ error node_not_found
              | some node ↦ success 200 (node_info node)
            ]))

    unfoldable pub get_file :
        (Bytes → Contact)
        → (Bytes → Bytes → Bytes)
        → (ℕ → ℕ)
        → Bool
        → (ℕ → Bytes → Write)
        → (Bytes → Bytes)
        → Bytes
        → Bool
        → Option UserClaims
        → PathId
        → FileHandler Db
        → FileHandler Db × Response
    unfolding find_file
    get_file contact serve reads ends sink sum request_id is_get user id h =
        guarded is_get user (λ r. (h, error r))
          (λ claims. elim (find_file claims id h.db) [
            | denied r ↦ (h, error r)
            | granted file ↦
                let (i, c, (bytes, e)) =
                  download_file_stream contact serve reads ends sink sum net json request_id file.id
                    file.hash h.connected h.client in
                (
                  record h { client = c; connected = i },
                  success 200 (attachment file.name file.content_type file.size bytes e),
                )
          ])

    -- What the storage answers to the deletion is only logged.
    unfoldable pub delete_file :
        Bytes → Bool → Option UserClaims → PathId → FileHandler Db → FileHandler Db × Response
    unfolding find_file delete_file_by_id
    delete_file request_id is_delete user id h =
        guarded is_delete user (λ r. (h, error r))
          (λ claims. elim (find_file claims id h.db) [
            | denied r ↦ (h, error r)
            | granted file ↦
                let (db, fine) = delete_file_by_id sql file.id h.db in
                if not fine
                then (record h { db = db }, error delete_failed)
                else let (i, c, r) =
                    request_delete net json request_id file.id file.hash h.connected h.client in
                  (record h { db = db; client = c; connected = i }, success 200 (deleted file.id))
          ])
