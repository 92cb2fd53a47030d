-- ===== src/Node/Locks/Deadlock.antt =====
-- The victim that `selectVictim` of backend/dfs/node/node.go takes from a cycle.
use distributed_file_system.Prelude.{
  ◌≡◌, refl, sym, subst, ap, true, false, List, [], ◌∷◌, Option, some, Bool-cases, Option-cases,
  inl, inr, ◌⊎◌, arith, In, head, tail,
}
use distributed_file_system.Prelude.Int.{ℤ, ◌≤ℤ◌, ◌<ℤ◌, lt_int, pos_part, neg_part}
use distributed_file_system.Prelude.Map.{Map, In-cons}
use distributed_file_system.Common.Types.{NodeId, nil_id, NodeInfo}
use distributed_file_system.Node.Locks.{priority_of, victim_loop, max_priority, select_victim}

-- The best of a start value and the nodes of a path.
record IsBest (priority : NodeId → Option ℤ) (path : List NodeId) (start best : NodeId × ℤ)
    : Type 0 where
  below : best.1 ≤ℤ start.1
  lowest : (id : NodeId) (p : ℤ) → In id path → priority id ≡ some p → best.1 ≤ℤ p
  from : (best ≡ start) ⊎ (In best.0 path × (priority best.0 ≡ some best.1))

module _ {priority : NodeId → Option ℤ} {path : List NodeId} {x v : NodeId} {q l : ℤ}
    {best : NodeId × ℤ} where
  better :
      priority x ≡ some q
      → lt_int q l ≡ true
      → IsBest priority path (x, q) best
      → IsBest priority (x ∷ path) (v, l) best
  better e less b = record {
    below = ground (arith, b.below);
    lowest = λ id p i h. elim (In-cons i) [
      | inl same ↦ subst (λ z. best.1 ≤ℤ z) (cc (ap priority same)) b.below
      | inr j ↦ b.lowest id p j h
    ];
    from = elim b.from [
      | inl s ↦ inr (head (ap (λ z. z.0) s), subst (λ z. priority z.0 ≡ some z.1) (sym s) e)
      | inr m ↦ inr (tail m.0, m.1)
    ];
  }

  no_better :
      priority x ≡ some q
      → lt_int q l ≡ false
      → IsBest priority path (v, l) best
      → IsBest priority (x ∷ path) (v, l) best
  no_better e more b = record {
    below = b.below;
    lowest = λ id p i h. elim (In-cons i) [
      | inl same ↦
          let le : best.1 ≤ℤ q = ground (arith, b.below) in
          subst (λ z. best.1 ≤ℤ z) (cc (ap priority same)) le
      | inr j ↦ b.lowest id p j h
    ];
    from = elim b.from [ inl s ↦ inl s | inr m ↦ inr (tail m.0, m.1) ];
  }

victim_loop-IsBest :
    (priority : NodeId → Option ℤ) (path : List NodeId) (start : NodeId × ℤ)
    → IsBest priority path start (victim_loop priority path start)
unfolding victim_loop
victim_loop-IsBest priority [] start = record {
  below = omega arith;
  lowest = λ id p i. elim i [ ];
  from = inl refl;
}
victim_loop-IsBest priority (x ∷ path) (v, l) = elim (Option-cases (priority x)) [
  | inl e ↦
      let b = victim_loop-IsBest priority path (v, l) in
      rw (e, victim_loop)
        (record {
          below = b.below;
          lowest = λ id p i h. elim (In-cons i) [
            | inl same ↦ absurd (ground arith)
            | inr j ↦ b.lowest id p j h
          ];
          from = elim b.from [ inl s ↦ inl s | inr m ↦ inr (tail m.0, m.1) ];
        })
  | inr (q, e) ↦
      rw (e, victim_loop)
        (elim (Bool-cases (lt_int q l)) [
          | inl less ↦ rw less (better e less (victim_loop-IsBest priority path (x, q)))
          | inr more ↦ rw more (no_better e more (victim_loop-IsBest priority path (v, l)))
        ])
]

-- The node that is made to give up its locks.
pub record IsVictim (priority : NodeId → Option ℤ) (path : List NodeId) (victim : NodeId)
    : Type 0 where
  pub value : ℤ
  pub on_path : In victim path
  pub known : priority victim ≡ some value
  pub lowest : (id : NodeId) (p : ℤ) → In id path → priority id ≡ some p → value ≤ℤ p

-- If the master knows some node of the cycle, of a priority below the largest int, the victim is a
-- node of the cycle that it knows, and none that it knows there has a lower priority.
pub select_victim-IsVictim :
    (self : NodeId) (own : ℤ) (peers : Map NodeId NodeInfo) (path : List NodeId) (id : NodeId)
    (p : ℤ)
    → In id path
    → priority_of self own peers id ≡ some p
    → p <ℤ max_priority
    → IsVictim (priority_of self own peers) path (select_victim self own peers path)
unfolding select_victim
select_victim-IsVictim self own peers path id p i h lt =
    let b = victim_loop-IsBest (priority_of self own peers) path (nil_id, max_priority) in
    elim b.from [
      | inl s ↦
          absurd
            (omega (arith, b.lowest id p i h, ap (λ z. pos_part z.1) s, ap (λ z. neg_part z.1) s))
      | inr m ↦ record { value = _; on_path = m.0; known = m.1; lowest = b.lowest }
    ]
