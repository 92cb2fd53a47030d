-- ===== src/Election/Demotion.antt =====
-- What following a coordinator leaves of the roles: the end of `handleCoordinator` of
-- backend/dfs/election/bully.go.
use distributed_file_system.Prelude.{
  ◌≡◌, ◌≢◌, ◌↔◌, refl, sym, subst, ap, ◌∙◌, Bool, true, false, not, ◌&&◌, List, [], ◌∷◌, Option,
  none, some, Bool-cases, Option-cases, inl, inr, if◌then◌else◌, In, In-nil, head, tail, arith,
  ◌==◌, nat_eq, nat_beq_iff, some_injective, true_not_false,
}
use distributed_file_system.Prelude.Map.{Map, lookup, lookup-insert, values, In-cons}
use distributed_file_system.Prelude.Int.{int_eq}
use distributed_file_system.Common.Types.{NodeId, NodeRole, master, storage, NodeInfo, Uuid}
use distributed_file_system.Node.{Node, is_master, get_peers, update_peer_role, set_role}
use distributed_file_system.Election.{demote_others, follow}

-- Every peer stands under its own identifier.
abbrev pub IsKeyed : Node → Type 0
IsKeyed n = (k : NodeId) (p : NodeInfo) → lookup k n.peers ≡ some p → p.id ≡ k

In-values :
    (k : NodeId) (p : NodeInfo) (m : Map NodeId NodeInfo) → lookup k m ≡ some p → In p (values m)
unfolding lookup
In-values k p [] h = cc
In-values k p ((j, q) ∷ m) h = elim (Bool-cases (j == k)) [
  | inl e ↦ head (sym (some_injective (rw (e, lookup) at h)))
  | inr e ↦ tail (In-values k p m (rw (e, lookup) at h))
]

-- The peer under a key once the role of a peer is set.
abbrev with_role : Bool → NodeRole → Option NodeInfo → Option NodeInfo
with_role hit role none = none
with_role hit role (some p) = some (if hit then record p { role = role } else p)

same_role : (role : NodeRole) (o : Option NodeInfo) → o ≡ with_role false role o
same_role role none = refl
same_role role (some p) = refl

set_role_of :
    (p : NodeInfo) (o : Option NodeInfo) → with_role true storage o ≡ some p → p.role ≢ master
set_role_of p none h = cc
set_role_of p (some q) h = λ m. storage≢master (ap role_of h ∙ m)
  where
    role_of : Option NodeInfo → NodeRole
    role_of none = storage
    role_of (some x) = x.role

    storage≢master : storage ≢ master
    storage≢master z = cc

lookup-update_peer_role :
    (id : NodeId) (role : NodeRole) (n : Node) (j : NodeId)
    → lookup j (update_peer_role id role n).peers ≡ with_role (id == j) role (lookup j n.peers)
unfolding update_peer_role
lookup-update_peer_role id role n j = elim (Option-cases (lookup id n.peers)) [
  | inl h ↦
      rw (h, update_peer_role)
        (elim (Bool-cases (id == j)) [
          | inl e ↦
              let missing : lookup j n.peers ≡ none =
                subst (λ z. lookup z n.peers ≡ none) ((nat_beq_iff id j).0 e) h in
              rw (e, missing) refl
          | inr e ↦ rw e (same_role role (lookup j n.peers))
        ])
  | inr (p, h) ↦
      rw (h, update_peer_role)
        (elim (Bool-cases (id == j)) [
          | inl e ↦
              let here : lookup j n.peers ≡ some p =
                subst (λ z. lookup z n.peers ≡ some p) ((nat_beq_iff id j).0 e) h in
              lookup-insert id j (record p { role = role }) n.peers ∙ rw (e, here) refl
          | inr e ↦
              lookup-insert id j (record p { role = role }) n.peers
              ∙ rw e (same_role role (lookup j n.peers))
        ])
]

role-update_peer_role :
    (id : NodeId) (role : NodeRole) (n : Node) → (update_peer_role id role n).role ≡ n.role
unfolding update_peer_role
role-update_peer_role id role n = ground arith

beq_false : (a b : NodeId) → (a == b) ≡ false → a ≢ b
beq_false a b e = ground (arith, nat_beq_iff a b)

-- A peer that is a master, not the sender, is among those that the loop still visits.
abbrev IsVisited : NodeId → List NodeInfo → Node → Type 0
IsVisited from peers n =
    (j : NodeId) (p : NodeInfo)
    → lookup j n.peers ≡ some p
    → p.role ≡ master
    → j ≢ from
    → (q : NodeInfo) × In q peers × (q.id ≡ j) × (q.role ≡ master)

demoted_test :
    (from : NodeId) (q : NodeInfo)
    → q.id ≢ from
    → q.role ≡ master
    → (not (q.id == from) && is_master q.role) ≡ true
demoted_test from q ne m = ground (arith, nat_beq_iff q.id from)

IsVisited-update :
    (from : NodeId) (q : NodeInfo) (peers : List NodeInfo) (n : Node)
    → IsVisited from (q ∷ peers) n
    → IsVisited from peers (update_peer_role q.id storage n)
IsVisited-update from q peers n v j p h m ne =
    let found : with_role (q.id == j) storage (lookup j n.peers) ≡ some p =
      sym (lookup-update_peer_role q.id storage n j) ∙ h in
    elim (Bool-cases (q.id == j)) [
      | inl e ↦ absurd (set_role_of p (lookup j n.peers) (rw e at found) m)
      | inr e ↦
          let (r, i, same, is_m) =
            v j p (same_role storage (lookup j n.peers) ∙ (rw e at found)) m ne in
          elim (In-cons i) [
            | inl z ↦ absurd (beq_false q.id j e (ap (λ x. x.id) (sym z) ∙ same))
            | inr t ↦ (r, t, same, is_m)
          ]
    ]

IsVisited-keep :
    (from : NodeId) (q : NodeInfo) (peers : List NodeInfo) (n : Node)
    → (not (q.id == from) && is_master q.role) ≡ false
    → IsVisited from (q ∷ peers) n
    → IsVisited from peers n
IsVisited-keep from q peers n e v j p h m ne =
    let (r, i, same, is_m) = v j p h m ne in
    elim (In-cons i) [
      | inl z ↦ absurd (
          true_not_false (
            sym (
              demoted_test from q (λ w. ne (sym same ∙ ap (λ x. x.id) z ∙ w))
                (ap (λ x. x.role) (sym z) ∙ is_m))
            ∙ e))
      | inr t ↦ (r, t, same, is_m)
    ]

no_other_master :
    (from : NodeId) (peers : List NodeInfo) (n : Node)
    → IsVisited from peers n
    → (j : NodeId) (p : NodeInfo) → lookup j (demote_others from peers n).peers ≡ some p
    → p.role ≡ master
    → j ≡ from
unfolding demote_others
no_other_master from [] n v j p h m = elim (Bool-cases (j == from)) [
  | inl e ↦ (nat_beq_iff j from).0 e
  | inr e ↦ let (r, i, same, is_m) = v j p h m (beq_false j from e) in absurd (In-nil i)
]
no_other_master from (q ∷ peers) n v j p h m =
    elim (Bool-cases (not (q.id == from) && is_master q.role)) [
      | inl e ↦
          no_other_master from peers (update_peer_role q.id storage n)
            (IsVisited-update from q peers n v) j p (rw (e, demote_others) at h) m
      | inr e ↦
          no_other_master from peers n (IsVisited-keep from q peers n e v) j p
            (rw (e, demote_others) at h) m
    ]

role-demote_others :
    (from : NodeId) (peers : List NodeInfo) (n : Node) → (demote_others from peers n).role ≡ n.role
unfolding demote_others
role-demote_others from [] n = refl
role-demote_others from (q ∷ peers) n = elim (Bool-cases (not (q.id == from) && is_master q.role)) [
  | inl e ↦
      rw (e, demote_others)
        (role-demote_others from peers (update_peer_role q.id storage n)
          ∙ role-update_peer_role q.id storage n)
  | inr e ↦ rw (e, demote_others) (role-demote_others from peers n)
]

-- `SetRole` to a storage node leaves the peers.
peers-set_role : (u : Uuid) (n : Node) → (set_role u storage n).peers ≡ n.peers
unfolding set_role
peers-set_role u n = ground arith

storage_after : (u : Uuid) (n : Node) → (set_role u storage n).role ≡ storage
unfolding set_role
storage_after u n = ground arith

-- All that is visited first: each peer stands under its identifier.
IsVisited-first : (from : NodeId) (n : Node) → IsKeyed n → IsVisited from (get_peers n) n
unfolding get_peers
IsVisited-first from n k j p h m ne = (p, In-values j p n.peers h, k j p h, m)

id-with_role :
    {j : NodeId} (hit : Bool) (role : NodeRole) (o : Option NodeInfo) (p : NodeInfo)
    → ((q : NodeInfo) → o ≡ some q → q.id ≡ j)
    → with_role hit role o ≡ some p
    → p.id ≡ j
id-with_role hit role none p k h = cc
id-with_role true role (some q) p k h = sym (ap id_of h) ∙ k q refl
  where
    id_of : Option NodeInfo → NodeId
    id_of none = q.id
    id_of (some x) = x.id
id-with_role false role (some q) p k h = k p h

settled :
    (u : Uuid) (n : Node)
    → ((if is_master n.role then set_role u storage n else n).role ≡ storage)
      × ((if is_master n.role then set_role u storage n else n).peers ≡ n.peers)
settled u n = ground (arith, storage_after u n, peers-set_role u n)

IsKeyed-update_peer_role :
    (id : NodeId) (role : NodeRole) (n : Node) → IsKeyed n → IsKeyed (update_peer_role id role n)
IsKeyed-update_peer_role id role n k j p h =
    id-with_role (id == j) role (lookup j n.peers) p (k j)
      (sym (lookup-update_peer_role id role n j) ∙ h)

-- The loop leaves the sender.
sender-demote_others :
    (from : NodeId) (peers : List NodeInfo) (n : Node)
    → lookup from (demote_others from peers n).peers ≡ lookup from n.peers
unfolding demote_others
sender-demote_others from [] n = refl
sender-demote_others from (q ∷ peers) n =
    elim (Bool-cases (not (q.id == from) && is_master q.role)) [
      | inr e ↦ rw (e, demote_others) (sender-demote_others from peers n)
      | inl e ↦
          let other : (q.id == from) ≡ false = ground (arith, e) in
          rw (e, demote_others)
            (sender-demote_others from peers (update_peer_role q.id storage n)
              ∙ lookup-update_peer_role q.id storage n from
              ∙ rw other (sym (same_role storage (lookup from n.peers))))
    ]

role_set :
    (role : NodeRole) (o : Option NodeInfo) (p : NodeInfo)
    → with_role true role o ≡ some p
    → p.role ≡ role
role_set role none p h = cc
role_set role (some q) p h = sym (ap (role_of role) h)
  where
    role_of : NodeRole → Option NodeInfo → NodeRole
    role_of r none = r
    role_of r (some x) = x.role

-- What a coordinator that is followed leaves.
pub follow-one_master :
    (u : Uuid) (from : NodeId) (n : Node)
    → IsKeyed n
    → ((follow u from n).role ≡ storage)
      × ((j : NodeId) (p : NodeInfo)
          → lookup j (follow u from n).peers ≡ some p
          → (p.role ≡ master) ↔ (j ≡ from))
unfolding follow
follow-one_master u from n k =
    let n1 = update_peer_role from master n in
    let end = settled u (demote_others from (get_peers n1) n1) in
    (
      end.0,
      λ j p h. (
        λ m.
            no_other_master from (get_peers n1) n1
              (IsVisited-first from n1 (IsKeyed-update_peer_role from master n k)) j p
              (ap (lookup j) (sym end.1) ∙ h) m,
        λ same. role_set master (lookup from n.peers) p (
            rw ((nat_beq_iff from from).1 refl) at (
              sym (lookup-update_peer_role from master n from)
              ∙ sym (sender-demote_others from (get_peers n1) n1)
              ∙ ap (lookup from) (sym end.1)
              ∙ ap (λ z. lookup z (follow u from n).peers) (sym same)
              ∙ h)),
      ),
    )
