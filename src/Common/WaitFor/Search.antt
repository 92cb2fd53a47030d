-- ===== src/Common/WaitFor/Search.antt =====
-- The invariant of the search of backend/dfs/common/waitfor-graph.go, through every call of `dfs`.
use mathlib.Core.WellFounded.{Acc}
use distributed_file_system.Prelude.{
  ℕ, zero, suc, ◌+◌, ◌≤◌, ◌≡◌, refl, sym, subst, ◌⊎◌, inl, inr, ◌≢◌, List, [], ◌∷◌, ◌++◌, Option,
  none, some, In, head, tail, arith, ◌==◌, nat_eq, nat_beq_iff, Bool-cases,
}
use distributed_file_system.Prelude.Map.{lookup, insert, lookup-insert}
use distributed_file_system.Common.Types.{NodeId, GraphNodeStatus, not_visited, visiting, visited}
use distributed_file_system.Common.WaitFor.{
  Graph, Statuses, Result, cycle, clear, out_of_fuel, and_then, successors, scan, dfs, search,
}
use distributed_file_system.Common.WaitFor.Walks.{Ends, IsWalk, IsWalk-concat}

-- The nodes that the search has not entered.
abbrev one_if_pending : GraphNodeStatus → ℕ
one_if_pending not_visited = 1
one_if_pending visiting = 0
one_if_pending visited = 0

abbrev pub pending : Statuses → ℕ
pending [] = 0
pending ((n, st) ∷ s) = one_if_pending st + pending s

pending-enter :
    (n : NodeId) (s : Statuses)
    → lookup n s ≡ some not_visited
    → suc (pending (insert n visiting s)) ≡ pending s
unfolding lookup insert
pending-enter n [] h = cc
pending-enter n ((m, st) ∷ s) h = ground (arith, pending-enter n s)

pending-leave : (n : NodeId) (s : Statuses) → pending (insert n visited s) ≤ pending s
unfolding insert
pending-leave n [] = omega arith
pending-leave n ((m, st) ∷ s) = ground (arith, pending-leave n s)

-- What holds of a result: `P` of the statuses it leaves, `Q` of the path it reports. It is never
-- out of fuel.
abbrev pub Post : (Statuses → Type 0) → (List NodeId → Type 0) → Result → Type 0
Post P Q (cycle p) = Q p
Post P Q (clear s) = P s
Post P Q out_of_fuel = ⊥

Post-and_then :
    (P P' : Statuses → Type 0) (Q : List NodeId → Type 0) (r : Result) (k : Statuses → Result)
    → Post P Q r
    → ((s : Statuses) → P s → Post P' Q (k s))
    → Post P' Q (and_then r k)
Post-and_then P P' Q (cycle p) k h f = h
Post-and_then P P' Q (clear s) k h f = f s h
Post-and_then P P' Q out_of_fuel k h f = elim h [ ]

status-cases :
    (o : Option GraphNodeStatus)
    → (o ≡ none) ⊎ (o ≡ some not_visited) ⊎ (o ≡ some visiting) ⊎ (o ≡ some visited)
status-cases none = inl refl
status-cases (some not_visited) = inr (inl refl)
status-cases (some visiting) = inr (inr (inl refl))
status-cases (some visited) = inr (inr (inr refl))

In-concat : (x n : NodeId) (p : List NodeId) → In x p → In x (p ++ n ∷ [])
In-concat x n [] i = elim i [ ]
In-concat x n (y ∷ p) (head e) = head e
In-concat x n (y ∷ p) (tail i) = tail (In-concat x n p i)

In-concat_last : (x n : NodeId) (p : List NodeId) → x ≡ n → In x (p ++ n ∷ [])
In-concat_last x n [] e = head e
In-concat_last x n (y ∷ p) e = tail (In-concat_last x n p e)

In-of_concat : (x n : NodeId) (p : List NodeId) → x ≢ n → In x (p ++ n ∷ []) → In x p
In-of_concat x n [] ne (head e) = absurd (ne e)
In-of_concat x n [] ne (tail i) = elim i [ ]
In-of_concat x n (y ∷ p) ne (head e) = head e
In-of_concat x n (y ∷ p) ne (tail i) = tail (In-of_concat x n p ne i)

module _ (g : Graph) where
  -- `path` holds every node that is being visited; a visited node starts finite walks only.
  pub record Inv (s : Statuses) (path : List NodeId) : Type 0 where
    pub done : (v : NodeId) → lookup v s ≡ some visited → Ends g v
    pub domain : (v : NodeId) → lookup v s ≡ none → lookup v g ≡ none
    pub on_path : (v : NodeId) → lookup v s ≡ some visiting → In v path

  -- The reported path follows the edges, and its last node stands in it before.
  abbrev pub IsClosed : List NodeId → Type 0
  IsClosed p = IsWalk g p × ((q : List NodeId) × (x : NodeId) × (p ≡ q ++ x ∷ []) × In x q)

  abbrev pub After : List NodeId → ℕ → Statuses → Type 0
  After path k s = Inv s path × (pending s ≤ k)

  not-In-nil : (w : NodeId) → In {A = NodeId} w [] → ⊥
  not-In-nil w i = elim i [ ]

  pub Ends-of_missing : (v : NodeId) → lookup v g ≡ none → Ends g v
  unfolding successors
  Ends-of_missing v h = Acc.intro v λ w i. absurd (not-In-nil w (rw (h, successors) at i))

  -- What a call of `dfs` on `n` promises.
  abbrev Visits : ℕ → (NodeId → Statuses → List NodeId → Result) → Type 0
  Visits fuel visit =
      (n : NodeId) (s : Statuses) (path : List NodeId)
      → lookup n s ≡ some not_visited
      → pending s ≤ fuel
      → Inv s path
      → IsWalk g (path ++ n ∷ [])
      → Post (λ s'. Ends g n × After path (pending s) s') IsClosed (visit n s path)

  abbrev Scans : List NodeId → List NodeId → ℕ → Result → Type 0
  Scans es path k = Post (λ s'. ((e : NodeId) → In e es → Ends g e) × After path k s') IsClosed

  Scans-cons :
      (e : NodeId) (es path : List NodeId) (k l : ℕ) (r : Result)
      → Ends g e
      → k ≤ l
      → Scans es path k r
      → Scans (e ∷ es) path l r
  Scans-cons e es path k l (cycle p) ends h c = c
  Scans-cons e es path k l (clear s) ends h c = (both, (c.1.0, omega arith))
    where
      both : (d : NodeId) → In d (e ∷ es) → Ends g d
      both d (head p) = subst (Ends g) (sym p) ends
      both d (tail i) = c.0 d i
  Scans-cons e es path k l out_of_fuel ends h c = c

  scan_lem :
      (fuel : ℕ) (visit : NodeId → Statuses → List NodeId → Result)
      → Visits fuel visit
      → (es : List NodeId) (s : Statuses) (path : List NodeId) → pending s ≤ fuel
      → Inv s path
      → ((e : NodeId) → In e es → IsWalk g (path ++ e ∷ []))
      → Scans es path (pending s) (scan visit es s path)
  unfolding scan
  scan_lem fuel visit vis [] s path b v w = (λ e i. absurd (not-In-nil e i), (v, omega arith))
  scan_lem fuel visit vis (e ∷ es) s path b v w =
      let more : (s' : Statuses)
          → Ends g e
          → After path (pending s) s'
          → Scans (e ∷ es) path (pending s) (scan visit es s' path) =
        λ s' ends a.
          Scans-cons e es path (pending s') (pending s) (scan visit es s' path) ends a.1
            (scan_lem fuel visit vis es s' path (omega arith) a.0 (λ d i. w d (tail i))) in
      elim (status-cases (lookup e s)) [
        | inl p ↦ rw (p, scan) (more s (Ends-of_missing e (v.domain e p)) (v, omega arith))
        | inr (inl p) ↦
            rw (p, scan)
              (Post-and_then _ _ _ (visit e s path) (λ s'. scan visit es s' path)
                (vis e s path p b v (w e (head refl))) (λ s' h. more s' h.0 h.1))
        | inr (inr (inl p)) ↦ rw (p, scan) (w e (head refl), (path, e, refl, v.on_path e p))
        | inr (inr (inr p)) ↦ rw (p, scan) (more s (v.done e p) (v, omega arith))
      ]

  Inv-enter :
      (n : NodeId) (s : Statuses) (path : List NodeId)
      → Inv s path
      → Inv (insert n visiting s) (path ++ n ∷ [])
  Inv-enter n s path v = record {
    done = λ x h. v.done x (ground (arith, lookup-insert n x visiting s));
    domain = λ x h. v.domain x (ground (arith, lookup-insert n x visiting s));
    on_path = λ x h. elim (Bool-cases (n == x)) [
      | inl p ↦ In-concat_last x n path (sym ((nat_beq_iff n x).0 p))
      | inr p ↦ In-concat x n path (v.on_path x (ground (arith, lookup-insert n x visiting s)))
    ];
  }

  Inv-leave :
      (n : NodeId) (s : Statuses) (path : List NodeId)
      → Ends g n
      → Inv s (path ++ n ∷ [])
      → Inv (insert n visited s) path
  Inv-leave n s path ends v = record {
    done = λ x h. elim (Bool-cases (n == x)) [
      | inl p ↦ subst (Ends g) ((nat_beq_iff n x).0 p) ends
      | inr p ↦ v.done x (ground (arith, lookup-insert n x visited s))
    ];
    domain = λ x h. v.domain x (ground (arith, lookup-insert n x visited s));
    on_path = λ x h. elim (Bool-cases (n == x)) [
      | inl p ↦ absurd (ground (arith, lookup-insert n x visited s))
      | inr p ↦
          In-of_concat x n path (λ (e : x ≡ n). ground arith)
            (v.on_path x (ground (arith, lookup-insert n x visited s)))
    ];
  }

  pub dfs_lem : (fuel : ℕ) → Visits fuel (dfs g fuel)
  unfolding dfs
  dfs_lem zero n s path p b v w = absurd (omega (arith, pending-enter n s p))
  dfs_lem (suc fuel) n s path p b v w =
      Post-and_then _ _ _
        (scan (dfs g fuel) (successors g n) (insert n visiting s) (path ++ n ∷ [])) _
        (scan_lem fuel (dfs g fuel) (dfs_lem fuel) (successors g n) (insert n visiting s)
          (path ++ n ∷ []) (omega (arith, pending-enter n s p)) (Inv-enter n s path v)
          (λ e i. IsWalk-concat g path n e w i))
        λ s' h.
          let ends : Ends g n = Acc.intro n h.0 in
          (
            ends,
            (
              Inv-leave n s' path ends h.1.0,
              omega (arith, pending-leave n s', pending-enter n s p, h.1.1),
            ),
          )

  Ends-cons :
      (n : NodeId) (ns : List NodeId) (r : Result)
      → Ends g n
      → Post (λ s'. (m : NodeId) → In m ns → Ends g m) IsClosed r
      → Post (λ s'. (m : NodeId) → In m (n ∷ ns) → Ends g m) IsClosed r
  Ends-cons n ns (cycle p) ends c = c
  Ends-cons n ns (clear s) ends c = both
    where
      both : (m : NodeId) → In m (n ∷ ns) → Ends g m
      both m (head p) = subst (Ends g) (sym p) ends
      both m (tail i) = c m i
  Ends-cons n ns out_of_fuel ends c = c

  -- The loop over the nodes leaves each of them with finite walks only, unless it finds a cycle.
  pub search_lem :
      (fuel : ℕ) (ns : List NodeId) (s : Statuses)
      → pending s ≤ fuel
      → Inv s []
      → Post (λ s'. (n : NodeId) → In n ns → Ends g n) IsClosed (search g fuel ns s)
  unfolding search
  search_lem fuel [] s b v = λ n i. absurd (not-In-nil n i)
  search_lem fuel (n ∷ ns) s b v =
      let more : (s' : Statuses)
          → Ends g n
          → After [] (pending s) s'
          → Post (λ s'. (m : NodeId) → In m (n ∷ ns) → Ends g m) IsClosed (search g fuel ns s') =
        λ s' ends a.
          Ends-cons n ns (search g fuel ns s') ends (search_lem fuel ns s' (omega arith) a.0) in
      elim (status-cases (lookup n s)) [
        | inl p ↦ rw (p, search) (more s (Ends-of_missing n (v.domain n p)) (v, omega arith))
        | inr (inl p) ↦
            rw (p, search)
              (Post-and_then _ _ _ (dfs g fuel n s []) (λ s'. search g fuel ns s')
                (dfs_lem fuel n s [] p b v tt) (λ s' h. more s' h.0 h.1))
        | inr (inr (inl p)) ↦ absurd (not-In-nil n (v.on_path n p))
        | inr (inr (inr p)) ↦ rw (p, search) (more s (v.done n p) (v, omega arith))
      ]
