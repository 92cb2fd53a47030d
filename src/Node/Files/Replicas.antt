-- ===== src/Node/Files/Replicas.antt =====
-- What `handleMetadataResponse` of backend/dfs/node/node.go notes of the files of a node.
use distributed_file_system.Prelude.{
  ◌≡◌, refl, sym, subst, ap, ◌∙◌, ◌↔◌, ◌⊎◌, inl, inr, true, List, [], ◌∷◌, ◌++◌, Option, none, some,
  Bytes, bytes_beq, bytes_beq_iff, bytes_eq, nat_beq_iff, nat_eq, ◌==◌, Bool-cases, In, head, tail,
}
use distributed_file_system.Prelude.Map.{Map, lookup, insert, lookup-insert, In-cons}
use distributed_file_system.Common.Types.{NodeId, GlobalFileInfo, NodeFileMetadata}
use distributed_file_system.Node.Files.{has_replica, merge_file, merge_files}

-- The replicas that a note has; a hash without one has none.
abbrev pub replicas_of : Option GlobalFileInfo → List NodeId
replicas_of none = []
replicas_of (some info) = info.replicas

pub has_replica_iff : (id : NodeId) (rs : List NodeId) → (has_replica id rs ≡ true) ↔ In id rs
unfolding has_replica
has_replica_iff id [] = ((λ h. cc), λ i. elim i [ ])
has_replica_iff id (r ∷ rs) = elim (Bool-cases (r == id)) [
  | inl e ↦ rw (e, has_replica) ((λ _. head (sym ((nat_beq_iff r id).0 e))), (λ _. refl))
  | inr e ↦
      rw (e, has_replica)
        (
          (λ h. tail ((has_replica_iff id rs).0 h)),
          λ i. elim (In-cons i) [
            | inl same ↦ cc (e, (nat_beq_iff r id).1 (sym same))
            | inr j ↦ (has_replica_iff id rs).1 j
          ],
        )
]

In-snoc : {a : NodeId} (x : NodeId) (xs : List NodeId) → In a (xs ++ x ∷ []) ↔ (In a xs ⊎ (a ≡ x))
In-snoc x [] = (
  (λ i. elim (In-cons i) [ inl e ↦ inr e | inr j ↦ inl j ]),
  λ r. elim r [ inl i ↦ elim i [ ] | inr e ↦ head e ],
)
In-snoc x (y ∷ ys) = (
  (λ i. elim (In-cons i) [
    | inl e ↦ inl (head e)
    | inr j ↦ elim ((In-snoc x ys).0 j) [ inl k ↦ inl (tail k) | inr e ↦ inr e ]
  ]),
  λ r. elim r [
    | inl i ↦ elim (In-cons i) [ inl e ↦ head e | inr j ↦ tail ((In-snoc x ys).1 (inl j)) ]
    | inr e ↦ tail ((In-snoc x ys).1 (inr e))
  ],
)

In-merge_file :
    (r id : NodeId) (file : NodeFileMetadata) (o : Option GlobalFileInfo)
    → In r (merge_file id file o).replicas ↔ (In r (replicas_of o) ⊎ (r ≡ id))
unfolding merge_file
In-merge_file r id file none = (
  (λ i. elim (In-cons i) [ inl e ↦ inr e | inr j ↦ inl j ]),
  λ c. elim c [ inl i ↦ elim i [ ] | inr e ↦ head e ],
)
In-merge_file r id file (some info) = elim (Bool-cases (has_replica id info.replicas)) [
  | inl e ↦
      rw (e, merge_file)
        (
          (λ i. inl i),
          λ c. elim c [
            | inl i ↦ i
            | inr same ↦
                subst (λ z. In z info.replicas) (sym same) ((has_replica_iff id info.replicas).0 e)
          ],
        )
  | inr e ↦ rw (e, merge_file) (In-snoc id info.replicas)
]

-- A node is noted for a hash: it was, or it is `id`, and one of the files has the hash.
abbrev Noted : NodeId → NodeId → Bytes → List NodeFileMetadata → Map Bytes GlobalFileInfo → Type 0
Noted r id hash files index =
    In r (replicas_of (lookup hash index))
    ⊎ ((r ≡ id) × ((file : NodeFileMetadata) × In file files × (file.hash ≡ hash)))

merge_step :
    (r id : NodeId) (hash : Bytes) (file : NodeFileMetadata) (files : List NodeFileMetadata)
    (index : Map Bytes GlobalFileInfo)
    → Noted r id hash files (insert file.hash (merge_file id file (lookup file.hash index)) index)
      ↔ Noted r id hash (file ∷ files) index
merge_step r id hash file files index = elim (Bool-cases (bytes_beq file.hash hash)) [
  | inl e ↦
      let same : file.hash ≡ hash = (bytes_beq_iff file.hash hash).0 e in
      let stored : lookup hash (insert file.hash note index) ≡ some note =
        lookup-insert file.hash hash note index ∙ rw e refl in
      let merged = In-merge_file r id file (lookup file.hash index) in
      (
        (λ c. elim c [
          | inl i ↦ elim (merged.0 (subst (λ o. In r (replicas_of o)) stored i)) [
            | inl k ↦ inl (subst (λ z. In r (replicas_of (lookup z index))) same k)
            | inr me ↦ inr (me, (file, head refl, same))
          ]
          | inr (me, (f, i, h)) ↦ inr (me, (f, tail i, h))
        ]),
        λ c. elim c [
          | inl i ↦ inl (
              subst (λ o. In r (replicas_of o)) (sym stored)
                (merged.1 (inl (subst (λ z. In r (replicas_of (lookup z index))) (sym same) i))))
          | inr (me, (f, i, h)) ↦ elim (In-cons i) [
            | inl _ ↦ inl (subst (λ o. In r (replicas_of o)) (sym stored) (merged.1 (inr me)))
            | inr j ↦ inr (me, (f, j, h))
          ]
        ],
      )
  | inr e ↦
      let kept : lookup hash (insert file.hash note index) ≡ lookup hash index =
        lookup-insert file.hash hash note index ∙ rw e refl in
      (
        (λ c. elim c [
          | inl i ↦ inl (subst (λ o. In r (replicas_of o)) kept i)
          | inr (me, (f, i, h)) ↦ inr (me, (f, tail i, h))
        ]),
        λ c. elim c [
          | inl i ↦ inl (subst (λ o. In r (replicas_of o)) (sym kept) i)
          | inr (me, (f, i, h)) ↦ elim (In-cons i) [
            | inl this ↦ cc (e, (bytes_beq_iff file.hash hash).1 (ap (λ x. x.hash) (sym this) ∙ h))
            | inr j ↦ inr (me, (f, j, h))
          ]
        ],
      )
]
  where
    note : GlobalFileInfo
    note = merge_file id file (lookup file.hash index)

-- After the files of a node are merged, the replicas that are noted under a hash are exactly those
-- that were noted, and the node itself if it has a file of that hash.
pub In-merge_files :
    (r id : NodeId) (hash : Bytes) (files : List NodeFileMetadata)
    (index : Map Bytes GlobalFileInfo)
    → In r (replicas_of (lookup hash (merge_files id files index))) ↔ (
        In r (replicas_of (lookup hash index))
        ⊎ ((r ≡ id) × ((file : NodeFileMetadata) × In file files × (file.hash ≡ hash))))
unfolding merge_files
In-merge_files r id hash [] index =
    ((λ i. inl i), λ c. elim c [ inl i ↦ i | inr q ↦ elim q.1.1 [ ] ])
In-merge_files r id hash (file ∷ files) index =
    let rest =
      In-merge_files r id hash files
        (insert file.hash (merge_file id file (lookup file.hash index)) index) in
    let now = merge_step r id hash file files index in
    ((λ i. now.0 (rest.0 i)), λ c. rest.1 (now.1 c))
