-- ===== src/Storage/Deletion.antt =====
-- What reads of backend/dfs/storage/local_storage.go give after a deletion.
use distributed_file_system.Prelude.{
  ◌≡◌, ◌≢◌, refl, sym, ◌∙◌, ap, subst, Bool, false, ◌<◌, none, some, Bytes, length, bytes_eq,
  bytes_beq, bytes_beq_iff, arith, Bool-cases, inl, inr,
}
use distributed_file_system.Prelude.Map.{lookup, delete, lookup-delete}
use distributed_file_system.Storage.{
  LocalStorage, Call, index_json, Result, ok, failed, err, panicked, is_short, save_index,
  returning, delete_file, get_file, not_in_index, remove_data, remove_metadata,
}
use distributed_file_system.Storage.Paths.{
  data_file, metadata_file, stray_metadata_file, path_eq, path_beq_iff, IsName, placed, placed_ne,
  stray_ne, directory_beq,
}
use distributed_file_system.Storage.Files.{
  data-save_index, metadata-save_index, index-save_index, persisted-save_index, state-returning,
  ok-returning, missing, beq-ne, IsPersisted, get_file_same,
}

module _ (fails : Call → Bool) (hash : Bytes) (s : LocalStorage) where
  -- The state that `SaveIndex` is called in.
  abbrev erased : LocalStorage
  erased = record s {
    index = delete hash s.index;
    disk =
        delete (stray_metadata_file s.working_directory hash)
          (delete (data_file s.base_path hash) s.disk);
  }

  abbrev pub deleted : LocalStorage × Result (Unit {0})
  deleted = delete_file fails hash s

  -- Where a deletion can end.
  data Ending : LocalStorage × Result (Unit {0}) → Type 0 where
    untouched : (r : Result (Unit {0})) → r ≢ ok tt → Ending (s, r)
    half :
        (r : Result (Unit {0}))
        → r ≢ ok tt
        → Ending (record s { disk = delete (data_file s.base_path hash) s.disk }, r)
    whole : Ending (returning tt (save_index fails erased))

  deleted-Ending : Ending deleted
  unfolding delete_file
  deleted-Ending = elim (Bool-cases (is_short hash)) [
    | inl a ↦ rw (a, delete_file) (untouched panicked (λ q. cc))
    | inr a ↦ elim (Bool-cases (fails remove_data)) [
      | inl b ↦ rw (a, b, delete_file) (untouched (err (failed remove_data)) (λ q. cc))
      | inr b ↦ elim (Bool-cases (fails remove_metadata)) [
        | inl c ↦ rw (a, b, c, delete_file) (half (err (failed remove_metadata)) (λ q. cc))
        | inr c ↦ rw (a, b, c, delete_file) whole
      ]
    ]
  ]

  -- What is under another path than the data file's is left by every ending.
  metadata_file-Ending :
      (k : Bytes) (r : LocalStorage × Result (Unit {0}))
      → IsName k
      → IsName hash
      → length s.working_directory < length s.base_path
      → Ending r
      → lookup (metadata_file r.0.base_path k) r.0.disk
        ≡ lookup (metadata_file s.base_path k) s.disk
  metadata_file-Ending k _ p q d (untouched r n) = refl
  metadata_file-Ending k _ p q d (half r n) =
      ground
        (arith, lookup-delete (data_file s.base_path hash) (metadata_file s.base_path k) s.disk)
  metadata_file-Ending k _ p q d whole =
      ap (λ t. lookup (metadata_file t.base_path k) t.disk)
        (state-returning tt (save_index fails erased))
      ∙ metadata-save_index fails erased k
      ∙ ground (
        arith,
        lookup-delete (stray_metadata_file s.working_directory hash) (metadata_file s.base_path k)
            (delete (data_file s.base_path hash) s.disk),
        lookup-delete (data_file s.base_path hash) (metadata_file s.base_path k) s.disk,
        stray_ne s.base_path s.working_directory k hash p q d,
      )

  get_file-Ending_ne :
      (k : Bytes) (r : LocalStorage × Result (Unit {0}))
      → bytes_beq hash k ≡ false
      → directory_beq (placed s.base_path hash) (placed s.base_path k) ≡ false
      → Ending r
      → get_file k r.0 ≡ get_file k s
  get_file-Ending_ne k _ ne other (untouched r n) = refl
  get_file-Ending_ne k _ ne other (half r n) =
      get_file_same k _ s refl (
        ground (arith, lookup-delete (data_file s.base_path hash) (data_file s.base_path k) s.disk))
  get_file-Ending_ne k _ ne other whole =
      ap (get_file k) (state-returning tt (save_index fails erased))
      ∙ get_file_same k _ s
          (ap (lookup k) (index-save_index fails erased)
            ∙ ground (arith, lookup-delete hash k s.index))
          (data-save_index fails erased k
            ∙ ground (
              arith,
              lookup-delete (stray_metadata_file s.working_directory hash) (data_file s.base_path k)
                  (delete (data_file s.base_path hash) s.disk),
              lookup-delete (data_file s.base_path hash) (data_file s.base_path k) s.disk,
            ))

  -- Whatever fails in the deletion of a hash without a slash, what a read of another hash without
  -- a slash gives does not change.
  pub get_file-delete_file_ne :
      (k : Bytes) → IsName k → IsName hash → k ≢ hash → get_file k deleted.0 ≡ get_file k s
  get_file-delete_file_ne k p q ne =
      get_file-Ending_ne k _ (beq-ne k hash ne) (placed_ne s.base_path k hash p q ne) deleted-Ending

  -- Let the base directory lie deeper than the one that the node runs in. Whether the deletion of a
  -- hash without a slash fails or succeeds, the file of metadata of a hash without a slash stays on
  -- the disk as it is, also the one of the file that is deleted.
  pub metadata_file-delete_file :
      (k : Bytes)
      → IsName k
      → IsName hash
      → length s.working_directory < length s.base_path
      → lookup (metadata_file deleted.0.base_path k) deleted.0.disk
        ≡ lookup (metadata_file s.base_path k) s.disk
  metadata_file-delete_file k p q d = metadata_file-Ending k _ p q d deleted-Ending

  gone-Ending :
      (r : LocalStorage × Result (Unit {0}))
      → Ending r
      → r.1 ≡ ok tt
      → (get_file hash r.0 ≡ err not_in_index)
        × (lookup (data_file r.0.base_path hash) r.0.disk ≡ none)
        × IsPersisted r.0
  gone-Ending _ (untouched r n) h = absurd (n h)
  gone-Ending _ (half r n) h = absurd (n h)
  gone-Ending _ whole h =
      let done = ok-returning tt tt (save_index fails erased) h in
      let same : (returning (tt {0}) (save_index fails erased)).0 ≡ (save_index fails erased).0 =
        state-returning tt (save_index fails erased) in
      subst
        (λ t.
          (get_file hash t ≡ err not_in_index)
          × (lookup (data_file t.base_path hash) t.disk ≡ none)
          × IsPersisted t)
        (sym same)
        (
          missing hash _ (
              ap (lookup hash) (index-save_index fails erased)
              ∙ ground (arith, lookup-delete hash hash s.index, bytes_beq_iff hash hash)),
          data-save_index fails erased hash
              ∙ ground (
                arith,
                lookup-delete (stray_metadata_file s.working_directory hash)
                    (data_file s.base_path hash) (delete (data_file s.base_path hash) s.disk),
                lookup-delete (data_file s.base_path hash) (data_file s.base_path hash) s.disk,
                path_beq_iff (data_file s.base_path hash) (data_file s.base_path hash),
              ),
          persisted-save_index fails erased done.1
              ∙ ap (λ i. some (index_json i)) (sym (index-save_index fails erased)),
        )

  -- A deletion that succeeds leaves nothing to read under the hash and no data file, and the index
  -- on the disk is the index in memory.
  pub get_file-delete_file :
      deleted.1 ≡ ok tt
      → (get_file hash deleted.0 ≡ err not_in_index)
        × (lookup (data_file deleted.0.base_path hash) deleted.0.disk ≡ none)
        × IsPersisted deleted.0
  get_file-delete_file h = gone-Ending deleted deleted-Ending h
