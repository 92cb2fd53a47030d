-- ===== src/Examples/Files.antt =====
-- Examples for the storage of files.
use distributed_file_system.Prelude.{
  ◌≡◌, refl, Bool, true, false, [], ◌∷◌, ◌++◌, some, none, arith, Bytes, codes, bytes_eq,
}
use distributed_file_system.Prelude.Map.{lookup, insert, delete}
use distributed_file_system.Storage.{
  LocalStorage, FileMetadata, Call, write_index, ok, err, not_in_index, raw, metadata_json,
  index_json, save_file, save_content, save_index, delete_file, get_file, load_index,
  new_local_storage, read_index, failed,
}
use distributed_file_system.Storage.Paths.{
  data_file, metadata_file, index_file, path_eq, IsName, locate, enter,
}
use distributed_file_system.Storage.Files.{IsPersisted, get_file-save_file}
use distributed_file_system.Storage.Deletion.{
  get_file-delete_file, get_file-delete_file_ne, metadata_file-delete_file,
}
use distributed_file_system.Storage.Restart.{get_file-load_index}
use distributed_file_system.Examples.Fixtures.{no_failure, base, working}

abbrev sum : Bytes → Bytes
sum content = codes "h" ++ content

abbrev pub meta : FileMetadata
meta = record {
  file_id = 7;
  filename = codes "f";
  hash = codes "h" ++ 5 ∷ [];
  size = 1;
  content_type = codes "t";
  stored_at = 1;
  status = codes "complete";
}

abbrev pub hash : Bytes
hash = codes "h" ++ 5 ∷ []

abbrev empty_storage : LocalStorage
empty_storage = new_local_storage base working

abbrev pub full : LocalStorage
full = record {
  base_path = base;
  working_directory = working;
  index = (hash, meta) ∷ [];
  disk =
      (data_file base hash, raw (5 ∷ []))
      ∷ (metadata_file base hash, metadata_json meta)
      ∷ (index_file, index_json ((hash, meta) ∷ []))
      ∷ [];
}

save_succeeds :
    (save_file sum no_failure 1 7 (codes "f") (codes "t") (5 ∷ []) empty_storage).1 ≡ ok meta
unfolding save_file save_content save_index
save_succeeds = refl

get_file-save_file_example :
    (get_file hash (save_file sum no_failure 1 7 (codes "f") (codes "t") (5 ∷ []) empty_storage).0
      ≡ ok (5 ∷ [], meta))
    × (meta ≡ meta)
    × IsPersisted (save_file sum no_failure 1 7 (codes "f") (codes "t") (5 ∷ []) empty_storage).0
get_file-save_file_example =
    get_file-save_file sum no_failure 1 7 (codes "f") (codes "t") (5 ∷ []) empty_storage meta
      save_succeeds

-- The index cannot be written.
abbrev no_index : Call → Bool
no_index write_index = true
no_index _ = false

delete_succeeds : (delete_file no_failure hash full).1 ≡ ok tt
unfolding delete_file save_index
delete_succeeds = refl

get_file-delete_file_example :
    (get_file hash (delete_file no_failure hash full).0 ≡ err not_in_index)
    × (lookup
          (data_file (delete_file no_failure hash full).0.base_path hash)
          (delete_file no_failure hash full).0.disk
        ≡ none)
    × IsPersisted (delete_file no_failure hash full).0
get_file-delete_file_example = get_file-delete_file no_failure hash full delete_succeeds

hash-IsName : IsName hash
hash-IsName = ((λ e. omega (arith, e)), ((λ e. omega (arith, e)), tt))

-- A text that is no hash leads to the data file of another one.
other_file : data_file base (codes "ab/../abX") ≡ data_file base (codes "abX")
unfolding locate enter
other_file = refl

get_file-delete_file_ne_example :
    get_file hash (delete_file no_index (codes "xy") full).0 ≡ get_file hash full
get_file-delete_file_ne_example =
    get_file-delete_file_ne no_index (codes "xy") full hash hash-IsName
      ((λ e. omega (arith, e)), ((λ e. omega (arith, e)), tt)) (λ e. cc)

metadata_file-delete_file_example :
    lookup
      (metadata_file (delete_file no_failure hash full).0.base_path hash)
      (delete_file no_failure hash full).0.disk
    ≡ lookup (metadata_file base hash) full.disk
metadata_file-delete_file_example =
    metadata_file-delete_file no_failure hash full hash hash-IsName hash-IsName (omega arith)

-- The metadata of the deleted file is still there.
metadata_left :
    lookup (metadata_file base hash) (delete_file no_failure hash full).0.disk
    ≡ some (metadata_json meta)
unfolding delete_file save_index lookup delete insert locate enter
metadata_left = refl

persisted : IsPersisted full
unfolding lookup
persisted = refl

get_file-load_index_example :
    let r = load_index no_failure (record full { index = [] }) in
    (no_failure read_index ≡ true → (r.1 ≡ err (failed read_index)) × (r.0.index ≡ []))
    × (no_failure read_index ≡ false → (r.1 ≡ ok tt) × (get_file hash r.0 ≡ get_file hash full))
get_file-load_index_example =
    get_file-load_index no_failure hash full persisted ((λ i. elim i [ ]), tt)
