-- ===== src/Common/WaitFor/Correct.antt =====
-- What `HasCycle` of backend/dfs/common/waitfor-graph.go decides.
use mathlib.Core.Option
use distributed_file_system.Prelude.{
  suc, ◌≤◌, ◌≡◌, refl, sym, subst, ◌⊎◌, inl, inr, ◌≢◌, Bool, true, false, List, [], ◌∷◌, Option,
  none, some, ap, ◌∙◌, ◌↔◌, Option-cases, length, In, head, tail, arith, ◌==◌, nat_eq, nat_beq_iff,
  Bool-cases,
}
use distributed_file_system.Prelude.Map.{
  Map, lookup, insert, lookup-insert, keys, lookup_of_not-In-keys, In-keys_of_lookup,
}
use distributed_file_system.Common.Types.{NodeId, not_visited}
use distributed_file_system.Common.WaitFor.{
  Graph, Statuses, Result, cycle, clear, out_of_fuel, initial, report, search, has_cycle,
}
use distributed_file_system.Common.WaitFor.Walks.{
  Edge, Ends, Reaches, IsWalk, Reaches_of_IsWalk, not-Reaches_of_Ends,
}
use distributed_file_system.Common.WaitFor.Search.{
  pending, Inv, IsClosed, Post, search_lem, Ends-of_missing,
}

not-In-cons : (x n : NodeId) (ns : List NodeId) → x ≢ n → ¬ In x ns → ¬ In x (n ∷ ns)
not-In-cons x n ns h k (head e) = h e
not-In-cons x n ns h k (tail i) = k i

lookup-initial :
    (ns : List NodeId) (x : NodeId)
    → (¬ In x ns) × (lookup x (initial ns) ≡ none)
      ⊎ In x ns × (lookup x (initial ns) ≡ some not_visited)
unfolding initial lookup
lookup-initial [] x = inl ((λ i. elim i [ ]), refl)
lookup-initial (n ∷ ns) x = elim (Bool-cases (n == x)) [
  | inl p ↦ inr (
    head (sym ((nat_beq_iff n x).0 p)),
    ground (arith, lookup-insert n x not_visited (initial ns)),
  )
  | inr p ↦ elim (lookup-initial ns x) [
    | inl q ↦ inl (
      not-In-cons x n ns (λ (e : x ≡ n). ground arith) q.0,
      ground (arith, lookup-insert n x not_visited (initial ns)),
    )
    | inr q ↦ inr (tail q.0, ground (arith, lookup-insert n x not_visited (initial ns)))
  ]
]

pending-insert : (n : NodeId) (s : Statuses) → pending (insert n not_visited s) ≤ suc (pending s)
unfolding insert
pending-insert n [] = omega arith
pending-insert n ((m, st) ∷ s) = ground (arith, pending-insert n s)

pending-initial : (ns : List NodeId) → pending (initial ns) ≤ length ns
unfolding initial
pending-initial [] = omega arith
pending-initial (n ∷ ns) = omega (arith, pending-initial ns, pending-insert n (initial ns))

Inv-initial : (g : Graph) → Inv g (initial (keys g)) []
Inv-initial g = record {
  done = λ v h. absurd (ground (arith, lookup-initial (keys g) v));
  domain = λ v h. elim (lookup-initial (keys g) v) [
    | inl p ↦ lookup_of_not-In-keys v g p.0
    | inr p ↦ absurd (ground (arith, p.1))
  ];
  on_path = λ v h. absurd (ground (arith, lookup-initial (keys g) v));
}

length-keys : (g : Graph) → length (keys g) ≡ length g
length-keys [] = refl
length-keys (e ∷ g) = ap suc (length-keys g)

-- The search as `HasCycle` starts it.
abbrev run : Graph → Result
run g = search g (length g) (keys g) (initial (keys g))

run_lem : (g : Graph) → Post (λ s. (n : NodeId) → In n (keys g) → Ends g n) (IsClosed g) (run g)
run_lem g =
    search_lem g (length g) (keys g) (initial (keys g))
      (omega (arith, pending-initial (keys g), length-keys g)) (Inv-initial g)

Ends-everywhere : (g : Graph) → ((n : NodeId) → In n (keys g) → Ends g n) → (x : NodeId) → Ends g x
Ends-everywhere g h x = elim (Option-cases (lookup x g)) [
  | inl p ↦ Ends-of_missing g x p
  | inr (m, p) ↦ h x (In-keys_of_lookup x m g p)
]

-- A cycle: a node that a walk leads back to.
abbrev pub HasCycle : Graph → Type 0
HasCycle g = (x : NodeId) × Reaches g x x

-- What a pair of results says of the graph.
pub data Verdict (g : Graph) : Option (Bool × List NodeId) → Type 0 where
  found : {p : List NodeId} → IsClosed g p → HasCycle g → Verdict g (some (true, p))
  free : ¬ HasCycle g → Verdict g (some (false, []))

Verdict-report :
    (g : Graph) (r : Result)
    → Post (λ s. (n : NodeId) → In n (keys g) → Ends g n) (IsClosed g) r
    → Verdict g (report r)
Verdict-report g (cycle p) (w, (q, x, e, i)) =
    found (w, (q, x, e, i)) (x, Reaches_of_IsWalk g q x x i (subst (IsWalk g) e w))
Verdict-report g (clear s) h = free (λ c. not-Reaches_of_Ends (Ends-everywhere g h c.0) c.1)
Verdict-report g out_of_fuel h = elim h [ ]

has_cycle-run :
    (e : NodeId × Map NodeId Bool) (g : Graph) → has_cycle (e ∷ g) ≡ report (run (e ∷ g))
unfolding has_cycle
has_cycle-run e g = ground arith

-- On every graph the search ends. It reports a path exactly when the graph has a cycle: the path
-- follows the edges and its last node stands in it before.
pub has_cycle-Verdict : (g : Graph) → Verdict g (has_cycle g)
unfolding has_cycle lookup
has_cycle-Verdict [] = free (λ c. not-Reaches_of_Ends (Ends-of_missing [] c.0 refl) c.1)
has_cycle-Verdict (e ∷ g) =
    subst (Verdict (e ∷ g)) (sym (has_cycle-run e g))
      (Verdict-report (e ∷ g) (run (e ∷ g)) (run_lem (e ∷ g)))

Verdict-of_cycle :
    (g : Graph) (o : Option (Bool × List NodeId))
    → Verdict g o
    → HasCycle g
    → Option.map (λ r. r.0) o ≡ some true
Verdict-of_cycle g o (found w c) h = refl
Verdict-of_cycle g o (free n) h = absurd (n h)

Verdict-of_free :
    (g : Graph) (o : Option (Bool × List NodeId))
    → Verdict g o
    → ¬ HasCycle g
    → Option.map (λ r. r.0) o ≡ some false
Verdict-of_free g o (found w c) h = absurd (h c)
Verdict-of_free g o (free n) h = refl

Verdict-cases :
    (g : Graph) (o : Option (Bool × List NodeId)) → Verdict g o → HasCycle g ⊎ ¬ HasCycle g
Verdict-cases g o (found w c) = inl c
Verdict-cases g o (free n) = inr n

Reaches-map :
    (g h : Graph)
    → ((v w : NodeId) → Edge g v w → Edge h v w)
    → {x y : NodeId} → Reaches g x y
    → Reaches h x y
Reaches-map g h f (Reaches.edge e) = Reaches.edge (f _ _ e)
Reaches-map g h f (Reaches.extend r e) = Reaches.extend (Reaches-map g h f r) (f _ _ e)

-- Two graphs with the same edges get the same verdict, in whatever order `range` visits their keys.
has_cycle_same_edges :
    (g h : Graph)
    → ((v w : NodeId) → Edge g v w ↔ Edge h v w)
    → Option.map (λ r. r.0) (has_cycle g) ≡ Option.map (λ r. r.0) (has_cycle h)
has_cycle_same_edges g h same =
    let to : HasCycle g → HasCycle h = λ c. (c.0, Reaches-map g h (λ v w. (same v w).0) c.1) in
    let from : HasCycle h → HasCycle g = λ c. (c.0, Reaches-map h g (λ v w. (same v w).1) c.1) in
    elim (Verdict-cases g (has_cycle g) (has_cycle-Verdict g)) [
      | inl c ↦
          Verdict-of_cycle g (has_cycle g) (has_cycle-Verdict g) c
          ∙ sym (Verdict-of_cycle h (has_cycle h) (has_cycle-Verdict h) (to c))
      | inr n ↦
          Verdict-of_free g (has_cycle g) (has_cycle-Verdict g) n
          ∙ sym (Verdict-of_free h (has_cycle h) (has_cycle-Verdict h) (λ c. n (from c)))
    ]
