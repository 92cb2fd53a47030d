-- ===== src/Hashing/Placement.antt =====
-- One round of the search of `FindNodesForFile`, and its loop (backend/dfs/hashing/hash.go).
use mathlib.Core.List.{append-nil, append_assoc}
use distributed_file_system.Prelude.{
  ℕ, zero, suc, ◌+◌, ◌%◌, ◌≤◌, ◌<◌, ◌≡◌, ◌≢◌, refl, ap, ◌∙◌, subst, Bool, true, List, [], ◌∷◌, ◌++◌,
  none, some, arith, ltb, length, length-append, get_or, All, In, head, tail, ◌==◌, nat_eq,
  nat_beq_iff, Bool-cases, Option-cases, inl, inr, ltb→lt, ◌⊎◌,
}
use distributed_file_system.Prelude.Map.{Map, lookup, insert, lookup-insert}
use distributed_file_system.Common.Types.{NodeId, NodeInfo}
use distributed_file_system.Hashing.{HashRing, owner, visit_position, find_loop}
use distributed_file_system.Hashing.WellFormed.{IsWellFormed}

-- No identifier twice.
abbrev pub Distinct : List NodeInfo → Type 0
Distinct [] = Unit
Distinct (x ∷ xs) = All (λ y. x.id ≢ y.id) xs × Distinct xs

All-concat {ℓ κ} :
    {A : Type ℓ} (P : A → Type κ) (xs : List A) (x : A) → All P xs → P x → All P (xs ++ x ∷ [])
All-concat P [] x a p = (p, tt)
All-concat P (y ∷ ys) x a p = (a.0, All-concat P ys x a.1 p)

All-In {ℓ κ} : {A : Type ℓ} (P : A → Type κ) (xs : List A) → ((x : A) → In x xs → P x) → All P xs
All-In P [] f = tt
All-In P (x ∷ xs) f = (f x (head refl), All-In P xs (λ y i. f y (tail i)))

Distinct-concat :
    (xs : List NodeInfo) (x : NodeInfo)
    → Distinct xs
    → All (λ y. y.id ≢ x.id) xs
    → Distinct (xs ++ x ∷ [])
Distinct-concat [] x d a = (tt, tt)
Distinct-concat (y ∷ ys) x d a = (All-concat _ ys x d.0 a.0, Distinct-concat ys x d.1 a.1)

pub In-append_left {ℓ} : {A : Type ℓ} (a : A) (xs ys : List A) → In a xs → In a (xs ++ ys)
In-append_left a [] ys i = elim i [ ]
In-append_left a (x ∷ xs) ys (head e) = head e
In-append_left a (x ∷ xs) ys (tail i) = tail (In-append_left a xs ys i)

pub In-append_last {ℓ} : {A : Type ℓ} (a : A) (xs : List A) → In a (xs ++ a ∷ [])
In-append_last a [] = head refl
In-append_last a (x ∷ xs) = tail (In-append_last a xs)

In-concat_cases {ℓ} : {A : Type ℓ} (a x : A) (xs : List A) → In a (xs ++ x ∷ []) → In a xs ⊎ (a ≡ x)
In-concat_cases a x [] (head e) = inr e
In-concat_cases a x [] (tail i) = elim i [ ]
In-concat_cases a x (y ∷ ys) (head e) = inl (head e)
In-concat_cases a x (y ∷ ys) (tail i) = elim (In-concat_cases a x ys i) [
  | inl j ↦ inl (tail j)
  | inr e ↦ inr e
]

-- What the two variables of the loop hold between rounds.
pub record Inv (h : HashRing) (n : ℕ) (s : Map NodeId Bool × List NodeInfo) : Type 0 where
  pub bounded : length s.1 ≤ n
  pub registered : (nd : NodeInfo) → In nd s.1 → lookup nd.id h.nodes ≡ some nd
  pub noted : (nd : NodeInfo) → In nd s.1 → lookup nd.id s.0 ≢ none
  pub distinct : Distinct s.1
  pub complete :
      (id : NodeId) (nd : NodeInfo) → lookup id s.0 ≢ none → lookup id h.nodes ≡ some nd → In nd s.1

pub Inv-empty : (h : HashRing) (n : ℕ) → Inv h n ([], [])
unfolding lookup
Inv-empty h n = record {
  bounded = omega arith;
  registered = λ nd i. elim i [ ];
  noted = λ nd i. elim i [ ];
  distinct = tt;
  complete = λ id nd m. absurd (m refl);
}

module _ (h : HashRing) (w : IsWellFormed h) (n : ℕ) where
  Inv-skip :
      (id : NodeId) (seen : Map NodeId Bool) (result : List NodeInfo)
      → lookup id h.nodes ≡ none
      → Inv h n (seen, result)
      → Inv h n (insert id true seen, result)
  Inv-skip id seen result gone v = record {
    bounded = v.bounded;
    registered = v.registered;
    noted = λ nd i p. v.noted nd i (ground (arith, lookup-insert id nd.id true seen));
    distinct = v.distinct;
    complete = λ k nd m p.
        v.complete k nd (λ q. m (ground (arith, lookup-insert id k true seen, nat_beq_iff id k))) p;
  }

  Inv-take :
      (id : NodeId) (node : NodeInfo) (seen : Map NodeId Bool) (result : List NodeInfo)
      → lookup id seen ≡ none
      → lookup id h.nodes ≡ some node
      → length result < n
      → Inv h n (seen, result)
      → Inv h n (insert id true seen, result ++ node ∷ [])
  Inv-take id node seen result new there room v =
      let own : node.id ≡ id = w.keyed id node there in
      record {
        bounded = omega (arith, length-append result (node ∷ []));
        registered = λ nd i. elim (In-concat_cases nd node result i) [
          | inl j ↦ v.registered nd j
          | inr e ↦ simp (e, own) there
        ];
        noted = λ nd i p. elim (In-concat_cases nd node result i) [
          | inl j ↦ v.noted nd j (ground (arith, lookup-insert id nd.id true seen))
          | inr e ↦ ground (arith, lookup-insert id nd.id true seen, nat_beq_iff id nd.id)
        ];
        distinct =
            Distinct-concat result node v.distinct
              (All-In _ result (λ nd i e. v.noted nd i (rw (e, own) new)));
        complete = λ k nd m p. elim (Bool-cases (id == k)) [
          | inl e ↦
              subst (λ z. In z (result ++ node ∷ [])) (ground (arith, nat_beq_iff id k))
                (In-append_last node result)
          | inr e ↦
              In-append_left nd result (node ∷ [])
                (v.complete k nd (λ q. m (ground (arith, lookup-insert id k true seen))) p)
        ];
      }

  visit_position-Inv :
      (id : NodeId) (s : Map NodeId Bool × List NodeInfo)
      → length s.1 < n
      → Inv h n s
      → Inv h n (visit_position h id s)
  unfolding visit_position
  visit_position-Inv id (seen, result) room v = elim (Option-cases (lookup id seen)) [
    | inr (b, e) ↦ rw (e, visit_position) v
    | inl e ↦ elim (Option-cases (lookup id h.nodes)) [
      | inl gone ↦ rw (e, gone, visit_position) (Inv-skip id seen result gone v)
      | inr (node, there) ↦
          rw (e, there, visit_position) (Inv-take id node seen result e there room v)
    ]
  ]

  visit_position-notes :
      (id k : NodeId) (s : Map NodeId Bool × List NodeInfo)
      → (k ≡ id) ⊎ (lookup k s.0 ≢ none)
      → lookup k (visit_position h id s).0 ≢ none
  unfolding visit_position
  visit_position-notes id k (seen, result) (inl e) p =
      ground (arith, lookup-insert id k true seen, nat_beq_iff id k)
  visit_position-notes id k (seen, result) (inr m) p =
      m (ground (arith, lookup-insert id k true seen))

  -- The owner of the position that round `i` looks at.
  abbrev pub owner_at : ℕ → ℕ → NodeId
  owner_at idx i = owner h.node_map (get_or h.ring ((idx + i) % length h.ring) 0)

  -- The loop ends with the result full, or with every position looked at.
  pub record Ends (idx : ℕ) (result : List NodeInfo) : Type 0 where
    pub seen : Map NodeId Bool
    pub inv : Inv h n (seen, result)
    pub all_seen :
        length result < n → (j : ℕ) → j < length h.ring → lookup (owner_at idx j) seen ≢ none

  pub find_loop-Ends :
      (idx rounds i : ℕ) (s : Map NodeId Bool × List NodeInfo)
      → rounds + i ≡ length h.ring
      → Inv h n s
      → ((j : ℕ) → j < i → lookup (owner_at idx j) s.0 ≢ none)
      → Ends idx (find_loop h idx n rounds i s)
  unfolding find_loop
  find_loop-Ends idx zero i s e v past = record {
    seen = s.0;
    inv = v;
    all_seen = λ _ j l. past j (omega arith);
  }
  find_loop-Ends idx (suc rounds) i s e v past = elim (Bool-cases (ltb (length s.1) n)) [
    | inr full ↦
        rw (full, find_loop)
          (record { seen = s.0; inv = v; all_seen = λ l j k. absurd (ground arith) })
    | inl room ↦
        rw (room, find_loop)
          (find_loop-Ends idx rounds (i + 1) (visit_position h (owner_at idx i) s) (omega arith)
            (visit_position-Inv (owner_at idx i) s (ltb→lt _ n room) v)
            (λ j l. visit_position-notes (owner_at idx i) (owner_at idx j) s (old_or_new j l)))
  ]
    where
      old_or_new :
          (j : ℕ)
          → j < i + 1
          → (owner_at idx j ≡ owner_at idx i) ⊎ (lookup (owner_at idx j) s.0 ≢ none)
      old_or_new j l = elim (Bool-cases (j == i)) [
        | inl q ↦ inl (ap (owner_at idx) ((nat_beq_iff j i).0 q))
        | inr q ↦ inr (past j (ground arith))
      ]

visit_position_prefix :
    (h : HashRing) (id : NodeId) (s : Map NodeId Bool × List NodeInfo)
    → (more : List NodeInfo) × ((visit_position h id s).1 ≡ s.1 ++ more)
unfolding visit_position
visit_position_prefix h id (seen, result) = elim (Option-cases (lookup id seen)) [
  | inr (b, e) ↦ ([], rw (e, visit_position, append-nil))
  | inl e ↦ elim (Option-cases (lookup id h.nodes)) [
    | inl gone ↦ ([], rw (e, gone, visit_position, append-nil))
    | inr (node, there) ↦ (node ∷ [], rw (e, there, visit_position))
  ]
]

-- The loop only appends.
pub find_loop_prefix :
    (h : HashRing) (idx n rounds i : ℕ) (s : Map NodeId Bool × List NodeInfo)
    → (more : List NodeInfo) × (find_loop h idx n rounds i s ≡ s.1 ++ more)
unfolding find_loop
find_loop_prefix h idx n zero i s = ([], rw append-nil)
find_loop_prefix h idx n (suc rounds) i s = elim (Bool-cases (ltb (length s.1) n)) [
  | inr full ↦ ([], rw (full, find_loop, append-nil))
  | inl room ↦
      let id = owner h.node_map (get_or h.ring ((idx + i) % length h.ring) 0) in
      let (new, p) = visit_position_prefix h id s in
      let (more, q) = find_loop_prefix h idx n rounds (i + 1) (visit_position h id s) in
      (new ++ more, rw (room, find_loop) (q ∙ ap (λ l. l ++ more) p ∙ append_assoc s.1 new more))
]
