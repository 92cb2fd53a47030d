-- ===== src/Storage/Restart.antt =====
-- What a node reads after a restart: `LoadIndex` of backend/dfs/storage/metadata.go and
-- local_storage.go.
use distributed_file_system.Prelude.{
  ◌≡◌, Bool, true, false, refl, ◌∙◌, subst, [], ◌∷◌, Option, none, some, Bytes, bytes_beq,
  bytes_beq_iff, bytes_eq, Bool-cases, inl, inr,
}
use distributed_file_system.Prelude.Map.{
  lookup, insert, lookup-insert, IsMap, lookup_of_not-In-keys,
}
use distributed_file_system.Storage.{
  LocalStorage, FileMetadata, Index, merge_index, load_index, get_file, ok, err, failed, read_index,
  Call,
}
use distributed_file_system.Storage.Files.{IsPersisted, get_file_same}

abbrev or_else : Option FileMetadata → Option FileMetadata → Option FileMetadata
or_else none b = b
or_else (some a) b = some a

lookup-merge_index :
    (k : Bytes) (i into : Index)
    → IsMap i
    → lookup k (merge_index i into) ≡ or_else (lookup k i) (lookup k into)
unfolding merge_index lookup
lookup-merge_index k [] into d = refl
lookup-merge_index k ((h, m) ∷ i) into d = elim (Bool-cases (bytes_beq h k)) [
  | inl e ↦
      let same : h ≡ k = (bytes_beq_iff h k).0 e in
      let absent : lookup k i ≡ none =
        subst (λ z. lookup z i ≡ none) same (lookup_of_not-In-keys h i d.0) in
      lookup-merge_index k i (insert h m into) d.1 ∙ rw (absent, lookup-insert h k m into, e) refl
  | inr e ↦ lookup-merge_index k i (insert h m into) d.1 ∙ rw (lookup-insert h k m into, e) refl
]

lookup-merge_empty : (k : Bytes) (i : Index) → IsMap i → lookup k (merge_index i []) ≡ lookup k i
unfolding lookup
lookup-merge_empty k i d = lookup-merge_index k i [] d ∙ or_none (lookup k i)
  where
    or_none : (o : Option FileMetadata) → or_else o none ≡ o
    or_none none = refl
    or_none (some a) = refl

-- Let the index on the disk be the index in memory and have no hash twice, and let a node start
-- again on the disk. If the read of the index fails, that is what `LoadIndex` returns, and the index
-- stays empty. Else the node loads the index, and each read gives what it gave before.
pub get_file-load_index :
    (fails : Call → Bool) (k : Bytes) (s : LocalStorage)
    → IsPersisted s
    → IsMap s.index
    → let r = load_index fails (record s { index = [] }) in
      (fails read_index ≡ true → (r.1 ≡ err (failed read_index)) × (r.0.index ≡ []))
      × (fails read_index ≡ false → (r.1 ≡ ok tt) × (get_file k r.0 ≡ get_file k s))
unfolding load_index
get_file-load_index fails k s p d = (
  λ e. rw (e, load_index) (refl, refl),
  λ e.
      rw (e, p, load_index)
        (
          refl,
          get_file_same k (record s { index = merge_index s.index [] }) s
              (lookup-merge_empty k s.index d) refl,
        ),
)
