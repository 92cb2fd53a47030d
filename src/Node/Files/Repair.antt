-- ===== src/Node/Files/Repair.antt =====
-- The targets of a repair: `initiateReplication` of backend/dfs/node/node.go.
use distributed_file_system.Prelude.{
  ◌≡◌, refl, sym, subst, ap, ◌∙◌, ◌↔◌, inl, inr, true, false, List, [], ◌∷◌, Bool-cases, In, head,
  tail,
}
use distributed_file_system.Prelude.Map.{In-cons}
use distributed_file_system.Common.Types.{NodeId, NodeInfo}
use distributed_file_system.Node.Files.{has_replica, missing_nodes}
use distributed_file_system.Node.Files.Replicas.{has_replica_iff}

-- The nodes that a repair asks to be filled are exactly those of the placement that hold no replica.
In-missing_nodes :
    (id : NodeId) (nodes : List NodeInfo) (replicas : List NodeId)
    → In id (missing_nodes nodes replicas)
      ↔ (((node : NodeInfo) × In node nodes × (node.id ≡ id)) × (¬ In id replicas))
unfolding missing_nodes
In-missing_nodes id [] replicas = ((λ i. elim i [ ]), λ c. elim c.0.1 [ ])
In-missing_nodes id (node ∷ nodes) replicas =
    let rest = In-missing_nodes id nodes replicas in
    elim (Bool-cases (has_replica node.id replicas)) [
      | inl e ↦
          rw (e, missing_nodes)
            (
              (λ i. let (c, out) = rest.0 i in ((c.0, tail c.1, c.2), out)),
              λ c. elim (In-cons c.0.1) [
                | inl same ↦ absurd (
                    c.1 (
                      subst (λ z. In z replicas) (ap (λ x. x.id) (sym same) ∙ c.0.2)
                        ((has_replica_iff node.id replicas).0 e)))
                | inr j ↦ rest.1 ((c.0.0, j, c.0.2), c.1)
              ],
            )
      | inr e ↦
          rw (e, missing_nodes)
            (
              (λ i. elim (In-cons i) [
                | inl same ↦ (
                  (node, head refl, sym same),
                  λ k. true≢false (
                      sym ((has_replica_iff node.id replicas).1 (subst (λ z. In z replicas) same k))
                      ∙ e),
                )
                | inr j ↦ let (c, out) = rest.0 j in ((c.0, tail c.1, c.2), out)
              ]),
              λ c. elim (In-cons c.0.1) [
                | inl same ↦ head (sym (ap (λ x. x.id) (sym same) ∙ c.0.2))
                | inr j ↦ tail (rest.1 ((c.0.0, j, c.0.2), c.1))
              ],
            )
    ]
  where
    true≢false : ¬ (true ≡ false)
    true≢false h = cc
