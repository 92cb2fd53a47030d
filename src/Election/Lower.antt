-- ===== src/Election/Lower.antt =====
-- When `handleCoordinator` of backend/dfs/election/bully.go takes a coordinator for a lower one.
use distributed_file_system.Prelude.{
  ◌≡◌, ◌≢◌, ◌↔◌, refl, sym, subst, ap, ◌∙◌, true, false, not, ◌&&◌, [], ◌∷◌, Option, none, some,
  Bool-cases, Option-cases, inl, inr, In, arith, ◌==◌, nat_eq, nat_beq_iff,
}
use distributed_file_system.Prelude.Map.{Map, lookup, values, keys, IsMap, In-keys_of_lookup}
use distributed_file_system.Prelude.Int.{ℤ, negsuc, ◌<ℤ◌, lt_int, int_eq, int_beq_iff}
use distributed_file_system.Common.Types.{NodeId, NodeInfo}
use distributed_file_system.Common.Messages.{Message}
use distributed_file_system.Node.{Node, get_peers}
use distributed_file_system.Election.{sender_priority, is_lower}
use distributed_file_system.Election.Demotion.{IsKeyed}

-- What stands further down in a map is not under the key in front.
absent_key :
    (j k : NodeId) (p : NodeInfo) (m : Map NodeId NodeInfo)
    → ¬ In j (keys m)
    → lookup k m ≡ some p
    → (j == k) ≡ false
absent_key j k p m missing h = elim (Bool-cases (j == k)) [
  | inr e ↦ e
  | inl e ↦ absurd (
      missing
        (subst (λ z. In z (keys m)) (sym ((nat_beq_iff j k).0 e)) (In-keys_of_lookup k p m h)))
]

abbrev priority_or : Option NodeInfo → ℤ
priority_or none = negsuc 0
priority_or (some p) = p.priority

-- The search over the peers finds the one under the identifier.
sender_priority-lookup :
    (id : NodeId) (m : Map NodeId NodeInfo)
    → IsMap m
    → ((k : NodeId) (p : NodeInfo) → lookup k m ≡ some p → p.id ≡ k)
    → sender_priority id (values m) ≡ priority_or (lookup id m)
unfolding sender_priority lookup
sender_priority-lookup id [] d keyed = refl
sender_priority-lookup id ((j, q) ∷ m) d keyed =
    let own : q.id ≡ j = keyed j q (rw ((nat_beq_iff j j).1 refl) refl) in
    let rest =
      sender_priority-lookup id m d.1
        (λ k p h. keyed k p (rw (absent_key j k p m d.0 h, lookup) h)) in
    elim (Bool-cases (j == id)) [ inl e ↦ rw (own, e) refl | inr e ↦ rw (own, e) rest ]

-- The coordinator is a peer of a lower priority, other than -1.
abbrev pub IsLower : Message → Node → Type 0
IsLower msg n =
    (p : NodeInfo) × (lookup msg.from n.peers ≡ some p)
    × (p.priority ≢ negsuc 0)
    × (p.priority <ℤ n.priority)

lower_test : (a b : ℤ) → (not (a == negsuc 0) && lt_int a b) ≡ true → (a ≢ negsuc 0) × (a <ℤ b)
lower_test a b h = (λ e. ground (arith, int_beq_iff a (negsuc 0)), ground arith)

lower_test_back : (a b : ℤ) → a ≢ negsuc 0 → a <ℤ b → (not (a == negsuc 0) && lt_int a b) ≡ true
lower_test_back a b ne l = ground (arith, int_beq_iff a (negsuc 0))

pub is_lower-IsLower :
    (msg : Message) (n : Node) → IsMap n.peers → IsKeyed n → (is_lower msg n ≡ true) ↔ IsLower msg n
unfolding is_lower get_peers
is_lower-IsLower msg n d k =
    let found = sender_priority-lookup msg.from n.peers d k in
    (
      λ h. elim (Option-cases (lookup msg.from n.peers)) [
        | inl e ↦ absurd (
            (lower_test (negsuc 0) n.priority (
                ap (λ a. not (a == negsuc 0) && lt_int a n.priority)
                  (sym (found ∙ ap priority_or e))
                ∙ h)).0
              refl)
        | inr (p, e) ↦
            let test = lower_test p.priority n.priority (
              ap (λ a. not (a == negsuc 0) && lt_int a n.priority) (sym (found ∙ ap priority_or e))
              ∙ h) in
            (p, e, test.0, test.1)
      ],
      λ (p, e, ne, l).
          ap (λ a. not (a == negsuc 0) && lt_int a n.priority) (found ∙ ap priority_or e)
          ∙ lower_test_back p.priority n.priority ne l,
    )
