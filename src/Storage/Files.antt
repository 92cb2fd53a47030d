-- ===== src/Storage/Files.antt =====
-- What reads of backend/dfs/storage/local_storage.go give after an upload.
use distributed_file_system.Prelude.{
  ℕ, ◌≡◌, ◌≢◌, refl, sym, ◌∙◌, ap, subst, Bool, false, none, some, Bytes, length, bytes_eq,
  bytes_beq, bytes_beq_iff, arith, Bool-cases, inl, inr, codes,
}
use distributed_file_system.Prelude.Map.{lookup, insert, delete, lookup-insert, lookup-delete}
use distributed_file_system.Common.Types.{NodeId}
use distributed_file_system.Storage.{
  LocalStorage, FileMetadata, Call, raw, metadata_json, index_json, Result, Error, ok, err,
  panicked, is_short, save_index, returning, save_content, save_file, get_file, not_in_index,
  open_entry, write_metadata,
}
use distributed_file_system.Storage.Paths.{
  data_file, metadata_file, index_file, index_temp_file, path_eq, path_beq_iff, IsName, placed_ne,
}

module _ (fails : Call → Bool) (s : LocalStorage) where
  -- What `SaveIndex` leaves alone, whether it fails or not.
  pub data-save_index :
      (h : Bytes)
      → lookup (data_file (save_index fails s).0.base_path h) (save_index fails s).0.disk
        ≡ lookup (data_file s.base_path h) s.disk
  unfolding save_index
  data-save_index h = ground (
    arith,
    lookup-insert index_temp_file (data_file s.base_path h) (index_json s.index) s.disk,
    lookup-insert index_file (data_file s.base_path h) (index_json s.index)
        (delete index_temp_file s.disk),
    lookup-delete index_temp_file (data_file s.base_path h) s.disk,
  )

  pub metadata-save_index :
      (h : Bytes)
      → lookup (metadata_file (save_index fails s).0.base_path h) (save_index fails s).0.disk
        ≡ lookup (metadata_file s.base_path h) s.disk
  unfolding save_index
  metadata-save_index h = ground (
    arith,
    lookup-insert index_temp_file (metadata_file s.base_path h) (index_json s.index) s.disk,
    lookup-insert index_file (metadata_file s.base_path h) (index_json s.index)
        (delete index_temp_file s.disk),
    lookup-delete index_temp_file (metadata_file s.base_path h) s.disk,
  )

  pub index-save_index : (save_index fails s).0.index ≡ s.index
  unfolding save_index
  index-save_index = ground arith

  -- The index that is on the disk is the index in memory.
  pub persisted-save_index :
      (save_index fails s).1 ≡ ok tt
      → lookup index_file (save_index fails s).0.disk ≡ some (index_json s.index)
  unfolding save_index
  persisted-save_index h = ground (
    arith,
    lookup-insert index_file index_file (index_json s.index) (delete index_temp_file s.disk),
  )

pub state-returning {ℓ} :
    {A : Type ℓ} (a : A) (r : LocalStorage × Result (Unit {0})) → (returning a r).0 ≡ r.0
state-returning a (s, ok u) = refl
state-returning a (s, err e) = refl
state-returning a (s, panicked) = refl

pub ok-returning {ℓ} :
    {A : Type ℓ} (a b : A) (r : LocalStorage × Result (Unit {0}))
    → (returning a r).1 ≡ ok b
    → (b ≡ a) × (r.1 ≡ ok tt)
ok-returning a b (s, ok u) h = (cc, refl)
ok-returning a b (s, err e) h = cc
ok-returning a b (s, panicked) h = cc

abbrev pub IsPersisted : LocalStorage → Type 0
IsPersisted s = lookup index_file s.disk ≡ some (index_json s.index)

-- A read depends on the index entry and the data file alone.
pub get_file_same :
    (k : Bytes) (s t : LocalStorage)
    → lookup k s.index ≡ lookup k t.index
    → lookup (data_file s.base_path k) s.disk ≡ lookup (data_file t.base_path k) t.disk
    → get_file k s ≡ get_file k t
unfolding get_file
get_file_same k s t p q = λ i. open_entry k (p i) (q i)

open_stored :
    (k : Bytes) (m : FileMetadata) (content : Bytes) (s : LocalStorage)
    → is_short k ≡ false
    → lookup k s.index ≡ some m
    → lookup (data_file s.base_path k) s.disk ≡ some (raw content)
    → get_file k s ≡ ok (content, m)
unfolding get_file
open_stored k m content s long p q = rw (p, q, long) refl

pub missing :
    (k : Bytes) (s : LocalStorage) → lookup k s.index ≡ none → get_file k s ≡ err not_in_index
unfolding get_file
missing k s p = rw p refl

pub beq-ne : (k hash : Bytes) → k ≢ hash → bytes_beq hash k ≡ false
beq-ne k hash ne = elim (Bool-cases (bytes_beq hash k)) [
  | inl e ↦ absurd (ne (sym ((bytes_beq_iff hash k).0 e)))
  | inr e ↦ e
]

module _ (fails : Call → Bool) (now : ℕ) (id : NodeId) (name content_type hash content : Bytes)
    (s : LocalStorage) where
  abbrev pub meta : FileMetadata
  meta = record {
    file_id = id;
    filename = name;
    hash = hash;
    size = length content;
    content_type = content_type;
    stored_at = now;
    status = codes "complete";
  }

  -- The state that `SaveIndex` is called in.
  abbrev written : LocalStorage
  written = record s {
    index = insert hash meta s.index;
    disk =
        insert (metadata_file s.base_path hash) (metadata_json meta)
          (insert (data_file s.base_path hash) (raw content) s.disk);
  }

  abbrev saved : LocalStorage × Result FileMetadata
  saved = save_content fails now id name content_type hash content s

  get_file-save_content_ne :
      (k : Bytes) → IsName k → IsName hash → k ≢ hash → get_file k saved.0 ≡ get_file k s
  unfolding save_content
  get_file-save_content_ne k p q ne = elim (Bool-cases (fails write_metadata)) [
    | inl e ↦
        rw (e, save_content)
          (get_file_same k _ s refl (
            ground (
              arith,
              lookup-insert (data_file s.base_path hash) (data_file s.base_path k) (raw content)
                  s.disk,
              placed_ne s.base_path k hash p q ne,
            )))
    | inr e ↦
        rw (e, save_content, state-returning)
          (get_file_same k _ s
            (ap (lookup k) (index-save_index fails written)
              ∙ ground (arith, lookup-insert hash k meta s.index, bytes_beq_iff hash k))
            (data-save_index fails written k
              ∙ ground (
                arith,
                lookup-insert (metadata_file s.base_path hash) (data_file s.base_path k)
                    (metadata_json meta) (insert (data_file s.base_path hash) (raw content) s.disk),
                lookup-insert (data_file s.base_path hash) (data_file s.base_path k) (raw content)
                    s.disk,
                placed_ne s.base_path k hash p q ne,
              )))
  ]

  -- A call that succeeds has come to its last line.
  returned-save_content :
      (m : FileMetadata)
      → saved.1 ≡ ok m
      → (m ≡ meta)
        × (saved.0 ≡ (save_index fails written).0)
        × IsPersisted (save_index fails written).0
  unfolding save_content
  returned-save_content m h = elim (Bool-cases (fails write_metadata)) [
    | inl e ↦ absurd (err≢ok (rw (e, save_content) at h))
    | inr e ↦
        let done = ok-returning meta m (save_index fails written) (rw (e, save_content) at h) in
        (
          done.0,
          rw (e, save_content) (state-returning meta (save_index fails written)),
          persisted-save_index fails written done.1
              ∙ ap (λ i. some (index_json i)) (sym (index-save_index fails written)),
        )
  ]
    where
      err≢ok : {e : Error} {x : FileMetadata} → ¬ (err e ≡ ok x)
      err≢ok h = cc

  get_file-written :
      is_short hash ≡ false → get_file hash (save_index fails written).0 ≡ ok (content, meta)
  get_file-written long =
      open_stored hash meta content _ long
        (ap (lookup hash) (index-save_index fails written)
          ∙ ground (arith, lookup-insert hash hash meta s.index, bytes_beq_iff hash hash))
        (data-save_index fails written hash
          ∙ ground (
            arith,
            lookup-insert (metadata_file s.base_path hash) (data_file s.base_path hash)
                (metadata_json meta) (insert (data_file s.base_path hash) (raw content) s.disk),
            lookup-insert (data_file s.base_path hash) (data_file s.base_path hash) (raw content)
                s.disk,
            path_beq_iff (data_file s.base_path hash) (data_file s.base_path hash),
          ))

  get_file-save_content :
      (m : FileMetadata)
      → is_short hash ≡ false
      → saved.1 ≡ ok m
      → (get_file hash saved.0 ≡ ok (content, m)) × (m ≡ meta) × IsPersisted saved.0
  get_file-save_content m long h =
      let done = returned-save_content m h in
      (
        ap (get_file hash) done.1 ∙ get_file-written long ∙ ap (λ x. ok (content, x)) (sym done.0),
        done.0,
        subst IsPersisted (sym done.1) done.2,
      )

module _ (sum : Bytes → Bytes) (fails : Call → Bool) (now : ℕ) (id : NodeId)
    (name content_type content : Bytes) (s : LocalStorage) where
  abbrev pub stored : LocalStorage × Result FileMetadata
  stored = save_file sum fails now id name content_type content s

  -- An upload that succeeds has renamed its temporary file.
  renamed-save_file :
      (m : FileMetadata)
      → stored.1 ≡ ok m
      → (is_short (sum content) ≡ false)
        × (stored ≡ save_content fails now id name content_type (sum content) content s)
  unfolding save_file
  renamed-save_file m h = ground arith

  -- An upload that succeeds is read back under the hash of its bytes, with the metadata that was
  -- returned, which holds the hash and the size; and the index on the disk is the index in memory.
  pub get_file-save_file :
      (m : FileMetadata)
      → stored.1 ≡ ok m
      → (get_file (sum content) stored.0 ≡ ok (content, m))
        × (m ≡ meta fails now id name content_type (sum content) content s)
        × IsPersisted stored.0
  get_file-save_file m h =
      let done = renamed-save_file m h in
      subst
        (λ r.
          (get_file (sum content) r.0 ≡ ok (content, m))
          × (m ≡ meta fails now id name content_type (sum content) content s)
          × IsPersisted r.0)
        (sym done.1)
        (get_file-save_content fails now id name content_type (sum content) content s m done.0
          (ap (λ r. r.1) (sym done.1) ∙ h))

  -- Whatever fails in an upload, what a read of another hash gives does not change.
  get_file-save_file_ne :
      (k : Bytes)
      → IsName k
      → IsName (sum content)
      → k ≢ sum content
      → get_file k stored.0 ≡ get_file k s
  unfolding save_file
  get_file-save_file_ne k p q ne = ground (
    arith,
    get_file-save_content_ne fails now id name content_type (sum content) content s k p q ne,
  )
