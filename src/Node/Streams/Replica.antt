-- ===== src/Node/Streams/Replica.antt =====
-- The replica that `handleStreamDownloadInit` of backend/dfs/node/node.go sends a client to.
use distributed_file_system.Prelude.{
  arith, ◌≡◌, ◌≢◌, refl, sym, subst, ap, ◌∙◌, true, false, List, [], ◌∷◌, Option, none, some,
  Option-cases, Bool-cases, inl, inr, In, head, tail, none_not_some, some_injective,
}
use distributed_file_system.Prelude.Map.{In-cons}
use distributed_file_system.Common.Types.{NodeId, NodeInfo, NodeStatus, online}
use distributed_file_system.Node.{Node, get_peer}
use distributed_file_system.Node.Streams.{is_online, select_replica}

-- A replica that can serve: a peer that is online.
abbrev pub Serves : Node → NodeId → NodeInfo → Type 0
Serves n id peer = (get_peer id n ≡ some peer) × (peer.status ≡ online)

-- What the search may give.
data Selects (n : Node) (replicas : List NodeId) : Option NodeInfo → Type 0 where
  selected :
      (id : NodeId) (peer : NodeInfo)
      → In id replicas
      → Serves n id peer
      → Selects n replicas (some peer)
  unserved :
      ((id : NodeId) (peer : NodeInfo) → In id replicas → ¬ Serves n id peer)
      → Selects n replicas none

online_of : (s : NodeStatus) → is_online s ≡ true → s ≡ online
online_of s h = ground arith

not_online : (s : NodeStatus) → is_online s ≡ false → s ≢ online
not_online s h e = cc (h, ap is_online e)

later :
    (n : Node) (r : NodeId) (replicas : List NodeId) (o : Option NodeInfo)
    → ((peer : NodeInfo) → ¬ Serves n r peer)
    → Selects n replicas o
    → Selects n (r ∷ replicas) o
later n r replicas _ dead (selected id peer i s) = selected id peer (tail i) s
later n r replicas _ dead (unserved f) = unserved (λ id peer i s. elim (In-cons i) [
  | inl same ↦ dead peer (subst (λ z. Serves n z peer) same s)
  | inr j ↦ f id peer j s
])

-- The search for a replica gives a peer that is online and holds the file, and fails exactly if no
-- replica is such a peer.
select_replica-Selects :
    (n : Node) (replicas : List NodeId) → Selects n replicas (select_replica n replicas)
unfolding select_replica
select_replica-Selects n [] = unserved (λ id peer i s. elim i [ ])
select_replica-Selects n (r ∷ replicas) = elim (Option-cases (get_peer r n)) [
  | inl e ↦
      rw (e, select_replica)
        (later n r replicas _ (λ peer s. none_not_some (sym e ∙ s.0))
          (select_replica-Selects n replicas))
  | inr (p, e) ↦ elim (Bool-cases (is_online p.status)) [
    | inl up ↦ rw (e, select_replica, up) (selected r p (head refl) (e, online_of p.status up))
    | inr down ↦
        rw (e, select_replica, down)
          (later n r replicas _
            (λ peer s.
              not_online p.status down (ap (λ x. x.status) (some_injective (sym e ∙ s.0)) ∙ s.1))
            (select_replica-Selects n replicas))
  ]
]
