-- ===== src/Hashing/Lookup.antt =====
-- What `FindNodesForFile` of backend/dfs/hashing/hash.go returns.
use native.Mathlib.Nat.{mod-eq_of_lt}
use distributed_file_system.Prelude.{
  ℕ, zero, suc, ◌+◌, ◌-◌, ◌%◌, ◌≤◌, ◌<◌, ◌≡◌, ◌≢◌, ap, ◌∙◌, subst, false, List, [], ◌∷◌, ◌++◌, none,
  some, arith, ltb, leb, leb→le, length, get_or, All, In, ◌==◌, nat_eq, nat_beq_iff, Bool-cases,
  inl, inr, ltb→lt, lt→ltb, ◌⊎◌,
}
use distributed_file_system.Prelude.Sort.{IsSorted}
use distributed_file_system.Prelude.BinarySearch.{sort_search, IsMonotone, sort_search-IsLeast}
use distributed_file_system.Prelude.Map.{lookup}
use distributed_file_system.Common.Types.{NodeId, NodeInfo, Uuid}
use distributed_file_system.Hashing.{
  HashRing, owner, hash_key, visit_position, find_loop, find_from, start_index, find_nodes_for_file,
}
use distributed_file_system.Hashing.WellFormed.{IsWellFormed}
use distributed_file_system.Hashing.Placement.{
  Distinct, Inv-empty, owner_at, find_loop-Ends, find_loop_prefix,
}

get_or-sorted :
    (ring : List ℕ) (i j : ℕ)
    → IsSorted ltb ring
    → i ≤ j
    → j < length ring
    → get_or ring i 0 ≤ get_or ring j 0
get_or-sorted [] i j s h l = absurd (omega arith)
get_or-sorted (x ∷ ring) zero zero s h l = omega arith
get_or-sorted (x ∷ ring) zero (suc j) s h l = get_or-All ring j s.0 (omega arith)
  where
    get_or-All :
        (r : List ℕ) (k : ℕ) → All (λ y. ltb y x ≡ false) r → k < length r → x ≤ get_or r k 0
    get_or-All [] k a m = absurd (omega arith)
    get_or-All (y ∷ r) zero a m = ground (arith, a.0)
    get_or-All (y ∷ r) (suc k) a m = get_or-All r k a.1 (omega arith)
get_or-sorted (x ∷ ring) (suc i) zero s h l = absurd (omega arith)
get_or-sorted (x ∷ ring) (suc i) (suc j) s h l =
    get_or-sorted ring i j s.1 (omega arith) (omega arith)

-- Where the clockwise walk from a hash begins: at the first position that is not before it, or, if
-- all are before it, at the lowest one.
abbrev pub IsSuccessor : List ℕ → ℕ → ℕ → Type 0
IsSuccessor ring hash i =
    (i < length ring)
    × (((hash ≤ get_or ring i 0)
          × ((k : ℕ)
              → k < length ring
              → hash ≤ get_or ring k 0
              → get_or ring i 0 ≤ get_or ring k 0))
        ⊎ ((k : ℕ)
            → k < length ring
            → (get_or ring k 0 < hash) × (get_or ring i 0 ≤ get_or ring k 0)))

pub start_index-IsSuccessor :
    (ring : List ℕ) (hash : ℕ)
    → IsSorted ltb ring
    → 0 < length ring
    → IsSuccessor ring hash (start_index ring hash)
unfolding start_index
start_index-IsSuccessor ring hash s ne =
    let p = λ (i : ℕ). leb hash (get_or ring i 0) in
    let mono : IsMonotone p (length ring) =
      λ k l h b e. ground (arith, get_or-sorted ring k l s h b) in
    let r = sort_search-IsLeast p (length ring) mono in
    let idx = sort_search (length ring) p in
    elim (Bool-cases (idx == length ring)) [
      | inl e ↦
          rw (e, start_index)
            (
              ne,
              inr (λ k l. (
                ground (arith, r.before k, (nat_beq_iff idx (length ring)).0 e),
                get_or-sorted ring 0 k s (omega arith) l,
              )),
            )
      | inr e ↦
          rw (e, start_index)
            (
              ground (arith, r.upper),
              inl (
                ground (arith, r.upper, r.after idx),
                λ k l h. ground (arith, r.before k, get_or-sorted ring idx k s),
              ),
            )
    ]

-- The positions that the rounds look at are all positions.
reach_position : (idx len p : ℕ) → idx < len → p < len → (j : ℕ) × (j < len) × ((idx + j) % len ≡ p)
reach_position idx len p a b = elim (Bool-cases (leb idx p)) [
  | inl e ↦
      let h = leb→le idx p e in
      (
        p - idx,
        omega arith,
        ap (λ z. z % len) (let z : idx + (p - idx) ≡ p = omega arith in z) ∙ mod-eq_of_lt b,
      )
  | inr e ↦ (p + len - idx, ground arith, wrap idx len p a b)
]
  where
    wrap : (idx len p : ℕ) → idx < len → p < len → (idx + (p + len - idx)) % len ≡ p
    wrap idx len p a b =
        ap (λ z. z % len) (let z : idx + (p + len - idx) ≡ p + len = omega arith in z) ∙ grind arith

-- Every registered node that owns a position is in the result.
abbrev pub HoldsOwners : HashRing → List NodeInfo → Type 0
HoldsOwners h result =
    (p : ℕ) (nd : NodeInfo)
    → p < length h.ring
    → lookup (owner h.node_map (get_or h.ring p 0)) h.nodes ≡ some nd
    → In nd result

-- What a placement promises: at most `n` nodes, registered, none twice; with fewer than `n` every
-- registered node that owns a position is among them.
pub record IsPlacement (h : HashRing) (n : ℕ) (result : List NodeInfo) : Type 0 where
  pub bounded : length result ≤ n
  pub registered : (nd : NodeInfo) → In nd result → lookup nd.id h.nodes ≡ some nd
  pub distinct : Distinct result
  pub complete : (length result ≡ n) ⊎ HoldsOwners h result

find_from-IsPlacement :
    (h : HashRing) (w : IsWellFormed h) (hash n : ℕ)
    → 0 < length h.ring
    → IsPlacement h n (find_from h hash n)
unfolding find_from
find_from-IsPlacement h w hash n ne =
    let idx = start_index h.ring hash in
    let succ = start_index-IsSuccessor h.ring hash w.sorted ne in
    let ends =
      find_loop-Ends h w n idx (length h.ring) 0 ([], []) (omega arith) (Inv-empty h n)
        (λ j l. absurd (omega arith)) in
    record {
      bounded = ends.inv.bounded;
      registered = ends.inv.registered;
      distinct = ends.inv.distinct;
      complete = elim (Bool-cases (ltb (length (find_from h hash n)) n)) [
        | inr full ↦ inl (ground (arith, full, ends.inv.bounded))
        | inl few ↦ inr (λ p nd l there.
            let (j, b, e) = reach_position idx (length h.ring) p succ.0 l in
            let id = owner h.node_map (get_or h.ring p 0) in
            let same : owner_at h w n idx j ≡ id =
              ap (λ q. owner h.node_map (get_or h.ring q 0)) e in
            ends.inv.complete id nd
              (subst (λ z. lookup z ends.seen ≢ none) same (ends.all_seen (ltb→lt _ n few) j b))
              there)
      ];
    }

-- On a well-formed ring `FindNodesForFile` gives at most `n` registered nodes, none twice, and
-- fewer than `n` only if it gives every registered node that owns a position of the ring.
pub find_nodes_for_file-IsPlacement :
    (u : Uuid) (h : HashRing) (file : NodeId) (n : ℕ)
    → IsWellFormed h
    → IsPlacement h n (find_nodes_for_file u h file n)
unfolding find_nodes_for_file
find_nodes_for_file-IsPlacement u h file n w = elim (Bool-cases (length h.ring == 0)) [
  | inl e ↦
      rw (e, find_nodes_for_file)
        (record {
          bounded = omega arith;
          registered = λ nd i. elim i [ ];
          distinct = tt;
          complete = inr (λ p nd l there. absurd (ground arith));
        })
  | inr e ↦
      rw (e, find_nodes_for_file)
        (find_from-IsPlacement h w (hash_key (u.string file)) n (ground arith))
]

visit_first :
    (h : HashRing) (id : NodeId) (nd : NodeInfo)
    → lookup id h.nodes ≡ some nd
    → (visit_position h id ([], [])).1 ≡ nd ∷ []
unfolding visit_position lookup
visit_first h id nd there = rw (there, visit_position)

find_loop_first :
    (h : HashRing) (idx n : ℕ) (nd : NodeInfo) (rounds : ℕ)
    → 0 < rounds
    → 0 < n
    → idx < length h.ring
    → lookup (owner h.node_map (get_or h.ring idx 0)) h.nodes ≡ some nd
    → (more : List NodeInfo) × (find_loop h idx n rounds 0 ([], []) ≡ nd ∷ more)
unfolding find_loop
find_loop_first h idx n nd zero r pos l there = absurd (omega arith)
find_loop_first h idx n nd (suc rounds) r pos l there =
    let id = owner h.node_map (get_or h.ring ((idx + 0) % length h.ring) 0) in
    let e : (idx + 0) % length h.ring ≡ idx =
      ap (λ z. z % length h.ring) (let z : idx + 0 ≡ idx = omega arith in z) ∙ mod-eq_of_lt l in
    let there' : lookup id h.nodes ≡ some nd = rw e there in
    let (more, q) = find_loop_prefix h idx n rounds 1 (visit_position h id ([], [])) in
    (more, rw (lt→ltb 0 n pos, find_loop) (q ∙ ap (λ z. z ++ more) (visit_first h id nd there')))

not_empty : (len : ℕ) → 0 < len → (len == 0) ≡ false
not_empty len h = ground arith

-- On a well-formed ring that is not empty, if a node is asked for: the first node of the result is
-- the owner of the position where the clockwise walk from the hash of the file begins, if that
-- owner is registered.
find_nodes_for_file_first :
    (u : Uuid) (h : HashRing) (file : NodeId) (n : ℕ)
    → IsWellFormed h
    → 0 < length h.ring
    → 0 < n
    → (i : ℕ) × IsSuccessor h.ring (hash_key (u.string file)) i
      × ((nd : NodeInfo)
          → lookup (owner h.node_map (get_or h.ring i 0)) h.nodes ≡ some nd
          → (more : List NodeInfo) × (find_nodes_for_file u h file n ≡ nd ∷ more))
unfolding find_nodes_for_file find_from
find_nodes_for_file_first u h file n w ne pos = (
  idx,
  succ,
  λ nd there.
      let (more, e) = find_loop_first h idx n nd (length h.ring) ne pos succ.0 there in
      (more, rw (not_empty (length h.ring) ne) e),
)
  where
    idx : ℕ
    idx = start_index h.ring (hash_key (u.string file))

    succ : IsSuccessor h.ring (hash_key (u.string file)) idx
    succ = start_index-IsSuccessor h.ring (hash_key (u.string file)) w.sorted ne
