-- ===== src/Storage.antt =====
-- backend/dfs/storage/local_storage.go and metadata.go: the content-addressed files of one node.
--
-- The disk maps the paths that the code makes (Paths) to contents. Each operating system call that may fail
-- is named by a `Call`, and `fails` says which do; one that succeeds changes the disk as documented
-- (`os.Remove` of a missing file is an error that the code lets pass). The temporary file of
-- `SaveFile` is removed on every path out of it and is left out. A reader is the bytes that it
-- yields; `json.Marshal` of metadata or of the index is the value itself. `sum` is the text that
-- `hex.EncodeToString` makes of the SHA-256 sum.
pub mod Paths
pub mod Files
pub mod Deletion
pub mod Restart
use distributed_file_system.Prelude.{
  ℕ, ◌≡◌, ◌↔◌, Bool, true, false, ◌&&◌, List, [], ◌∷◌, Option, none, some, Bytes, length,
  if◌then◌else◌, ltb, bytes_eq, bytes_beq, bytes_beq_iff, Eq, arith, refl, codes,
}
use distributed_file_system.Prelude.Map.{Map, lookup, insert, delete, values}
use distributed_file_system.Common.Types.{NodeId}
use distributed_file_system.Storage.Paths.{
  Directory, FilePath, path_eq, data_file, metadata_file, stray_metadata_file, index_file,
  index_temp_file,
}

pub record FileMetadata : Type 0 where
  pub file_id : NodeId
  pub filename : Bytes
  pub hash : Bytes
  pub size : ℕ
  pub content_type : Bytes
  pub stored_at : ℕ
  pub status : Bytes

abbrev pub Index : Type 0
Index = Map Bytes FileMetadata

-- What a file holds.
pub data Content : Type 0 where
  raw : Bytes → Content
  metadata_json : FileMetadata → Content
  index_json : Index → Content

-- The directories are absolute: `basePath`, and the one that the node runs in.
pub record LocalStorage : Type 0 where
  pub base_path : Directory
  pub working_directory : Directory
  pub index : Index
  pub disk : Map FilePath Content

abbrev pub new_local_storage : Directory → Directory → LocalStorage
new_local_storage base working = record {
  base_path = base;
  working_directory = working;
  index = [];
  disk = [];
}

-- The calls whose errors the code returns.
pub data Call : Type 0 where
  mkdir_base create_temp copy_data mkdir_data rename_data write_metadata : Call
  remove_data remove_metadata write_index rename_index read_index : Call

pub data Error : Type 0 where
  failed : Call → Error
  not_in_index not_on_disk bad_index : Error

-- `panicked` is the run-time panic of `hash[:2]` on a hash of fewer than two bytes.
pub data Result {ℓ} (A : Type ℓ) : Type ℓ where
  ok : A → Result A
  err : Error → Result A
  panicked : Result A

-- `hash[:2]` in `filePath` and `metadataFilePath`
abbrev pub is_short : Bytes → Bool
is_short hash = ltb (length hash) 2

unfoldable pub save_index : (Call → Bool) → LocalStorage → LocalStorage × Result (Unit {0})
save_index fails s =
    if fails write_index
    then (s, err (failed write_index))
    else if fails rename_index
    then (
      record s { disk = insert index_temp_file (index_json s.index) s.disk },
      err (failed rename_index),
    )
    else (
      record s { disk = insert index_file (index_json s.index) (delete index_temp_file s.disk) },
      ok tt,
    )

-- What `SaveIndex` returned decides what its caller returns.
abbrev pub returning {ℓ} :
    {A : Type ℓ} → A → LocalStorage × Result (Unit {0}) → LocalStorage × Result A
returning a (s, ok u) = (s, ok a)
returning a (s, err e) = (s, err e)
returning a (s, panicked) = (s, panicked)

-- `SaveFile` from the rename on.
unfoldable pub save_content :
    (Call → Bool)
    → ℕ
    → NodeId
    → Bytes
    → Bytes
    → Bytes
    → Bytes
    → LocalStorage
    → LocalStorage × Result FileMetadata
save_content fails now id name content_type hash content s =
    let meta : FileMetadata = record {
      file_id = id;
      filename = name;
      hash = hash;
      size = length content;
      content_type = content_type;
      stored_at = now;
      status = codes "complete";
    } in
    let s1 : LocalStorage = record s {
      disk = insert (data_file s.base_path hash) (raw content) s.disk;
    } in
    if fails write_metadata
    then (s1, err (failed write_metadata))
    else returning meta (
        save_index fails (record s1 {
          index = insert hash meta s1.index;
          disk = insert (metadata_file s.base_path hash) (metadata_json meta) s1.disk;
        }))

module _ (sum : Bytes → Bytes) where
  unfoldable pub save_file :
      (Call → Bool)
      → ℕ
      → NodeId
      → Bytes
      → Bytes
      → Bytes
      → LocalStorage
      → LocalStorage × Result FileMetadata
  save_file fails now id name content_type content s =
      if fails mkdir_base
      then (s, err (failed mkdir_base))
      else if fails create_temp
      then (s, err (failed create_temp))
      else if fails copy_data
      then (s, err (failed copy_data))
      else if is_short (sum content)
      then (s, panicked)
      else if fails mkdir_data
      then (s, err (failed mkdir_data))
      else if fails rename_data
      then (s, err (failed rename_data))
      else save_content fails now id name content_type (sum content) content s

unfoldable pub delete_file : (Call → Bool) → Bytes → LocalStorage → LocalStorage × Result (Unit {0})
delete_file fails hash s =
    if is_short hash
    then (s, panicked)
    else if fails remove_data
    then (s, err (failed remove_data))
    else let s1 : LocalStorage = record s { disk = delete (data_file s.base_path hash) s.disk } in
      if fails remove_metadata
      then (s1, err (failed remove_metadata))
      else returning tt (
          save_index fails (record s1 {
            index = delete hash s1.index;
            disk = delete (stray_metadata_file s.working_directory hash) s1.disk;
          }))

-- `os.Open` and what a read of the file yields.
abbrev pub open_data : FileMetadata → Option Content → Result (Bytes × FileMetadata)
open_data meta none = err not_on_disk
open_data meta (some (raw content)) = ok (content, meta)
open_data meta (some _) = err not_on_disk

abbrev pub open_entry : Bytes → Option FileMetadata → Option Content → Result (Bytes × FileMetadata)
open_entry hash none c = err not_in_index
open_entry hash (some meta) c = if is_short hash then panicked else open_data meta c

-- `GetFile`: the bytes of the file and its metadata. A file that is there can be opened.
unfoldable pub get_file : Bytes → LocalStorage → Result (Bytes × FileMetadata)
get_file hash s = open_entry hash (lookup hash s.index) (lookup (data_file s.base_path hash) s.disk)

-- `json.Unmarshal` into a map that is there sets the keys that it reads.
unfoldable pub merge_index : Index → Index → Index
merge_index [] into = into
merge_index ((hash, meta) ∷ i) into = merge_index i (insert hash meta into)

-- A call that fails does so whether the file is there or not.
unfoldable pub load_index : (Call → Bool) → LocalStorage → LocalStorage × Result (Unit {0})
unfolding merge_index
load_index fails s =
    if fails read_index then (s, err (failed read_index)) else elim (lookup index_file s.disk) [
      | none ↦ (s, ok tt)
      | some c ↦ elim c [
        | raw content ↦ (s, err bad_index)
        | metadata_json m ↦ (s, err bad_index)
        | index_json i ↦ (record s { index = merge_index i s.index }, ok tt)
      ]
    ]

unfoldable pub get_all_metadata : LocalStorage → List FileMetadata
get_all_metadata s = values s.index
