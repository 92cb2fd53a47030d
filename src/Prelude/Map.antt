-- ===== src/Prelude/Map.antt =====
-- Go's maps: the list order stands for the order in which `range` visits the keys.
use mathlib.Core.Path.{◌≡◌, refl, sym, subst, ◌∙◌}
use mathlib.Core.Logic.{◌⊎◌, inl, inr}
use mathlib.Core.Bool.{Bool}
use mathlib.Core.List.{List, [], ◌∷◌}
use mathlib.Core.Option.{Option, none, some}
use native.Mathlib.Omega.{arith}
use distributed_file_system.Prelude.Tests.{Eq, ◌==◌, if◌then◌else◌, Bool-cases, Option-cases}
use distributed_file_system.Prelude.Lists.{In, head, tail}

abbrev pub Map {ℓ κ} : Type ℓ → Type κ → Type (ℓ ⊔ κ)
Map K V = List (K × V)

module _ {ℓ κ} {K : Type ℓ} {V : Type κ} ⦃e : Eq K⦄ where
  unfoldable pub lookup : K → Map K V → Option V
  lookup k [] = none
  lookup k ((a, w) ∷ m) = if a == k then some w else lookup k m

  unfoldable pub insert : K → V → Map K V → Map K V
  insert k v [] = (k, v) ∷ []
  insert k v ((a, w) ∷ m) = let rest = insert k v m in if a == k then (k, v) ∷ m else (a, w) ∷ rest

  unfoldable pub delete : K → Map K V → Map K V
  delete k [] = []
  delete k ((j, w) ∷ m) = let rest = delete k m in if j == k then rest else (j, w) ∷ rest

  pub lookup-insert :
      (k a : K) (v : V) (m : Map K V)
      → lookup a (insert k v m) ≡ (if k == a then some v else lookup a m)
  unfolding lookup insert
  lookup-insert k a v [] = refl
  lookup-insert k a v ((b, w) ∷ m) =
      ground (arith, lookup-insert k a v m, e.beq_iff b a, e.beq_iff b k, e.beq_iff k a)

  pub lookup-delete :
      (k j : K) (m : Map K V) → lookup j (delete k m) ≡ (if k == j then none else lookup j m)
  unfolding lookup delete
  lookup-delete k j [] = ground arith
  lookup-delete k j ((i, w) ∷ m) =
      ground (arith, e.beq_iff k j, e.beq_iff i k, e.beq_iff i j, lookup-delete k j m)

abbrev pub keys {ℓ κ} : {K : Type ℓ} {V : Type κ} → Map K V → List K
keys [] = []
keys ((k, v) ∷ m) = k ∷ keys m

abbrev pub values {ℓ κ} : {K : Type ℓ} {V : Type κ} → Map K V → List V
values [] = []
values ((k, v) ∷ m) = v ∷ values m

module _ {ℓ κ} {K : Type ℓ} {V : Type κ} ⦃e : Eq K⦄ where
  -- What `range` visits is in the map.
  pub lookup_of_not-In-keys : (k : K) (m : Map K V) → ¬ In k (keys m) → lookup k m ≡ none
  unfolding lookup
  lookup_of_not-In-keys k [] h = refl
  lookup_of_not-In-keys k ((j, w) ∷ m) h =
      ground (
        arith,
        e.beq_iff j k,
        lookup_of_not-In-keys k m (λ i. h (tail i)),
        λ (p : k ≡ j). h (head p),
      )

  pub In-keys_of_lookup : (k : K) (v : V) (m : Map K V) → lookup k m ≡ some v → In k (keys m)
  unfolding lookup
  In-keys_of_lookup k v [] h = cc
  In-keys_of_lookup k v ((j, w) ∷ m) h = elim (Bool-cases (j == k)) [
    | inl p ↦ head (sym ((e.beq_iff j k).0 p))
    | inr p ↦ tail (In-keys_of_lookup k v m (rw (p, lookup) at h))
  ]

pub In-cons {ℓ} : {A : Type ℓ} {x y : A} {xs : List A} → In x (y ∷ xs) → (x ≡ y) ⊎ In x xs
In-cons (head e) = inl e
In-cons (tail i) = inr i

-- A loop over the entries that deletes those that meet a test.
module _ {ℓ κ} {K : Type ℓ} {V : Type κ} ⦃e : Eq K⦄ where
  -- No key stands twice, as in every map that is built by `insert` and `delete`.
  abbrev pub IsMap : Map K V → Type ℓ
  IsMap [] = Unit
  IsMap ((k, v) ∷ m) = (¬ In k (keys m)) × IsMap m

  unfoldable pub prune_loop : (K → V → Bool) → Map K V → Map K V → Map K V
  prune_loop p [] m = m
  prune_loop p ((k, v) ∷ es) m = prune_loop p es (if p k v then delete k m else m)

  unfoldable pub prune : (K → V → Bool) → Map K V → Map K V
  unfolding prune_loop
  prune p m = prune_loop p m m

  In-keys-insert :
      (j k : K) (v : V) (m : Map K V) → In j (keys (insert k v m)) → (j ≡ k) ⊎ In j (keys m)
  unfolding insert
  In-keys-insert j k v [] i = In-cons i
  In-keys-insert j k v ((a, w) ∷ m) i = elim (Bool-cases (a == k)) [
    | inl q ↦ elim (In-cons (rw (q, insert) at i)) [ inl r ↦ inl r | inr r ↦ inr (tail r) ]
    | inr q ↦ elim (In-cons (rw (q, insert) at i)) [
      | inl r ↦ inr (head r)
      | inr r ↦ elim (In-keys-insert j k v m r) [ inl s ↦ inl s | inr s ↦ inr (tail s) ]
    ]
  ]

  pub insert-IsMap : (k : K) (v : V) (m : Map K V) → IsMap m → IsMap (insert k v m)
  unfolding insert
  insert-IsMap k v [] d = ((λ i. elim i [ ]), tt)
  insert-IsMap k v ((a, w) ∷ m) d = elim (Bool-cases (a == k)) [
    | inl q ↦
        rw (q, insert) ((λ i. d.0 (subst (λ z. In z (keys m)) (sym ((e.beq_iff a k).0 q)) i)), d.1)
    | inr q ↦
        rw (q, insert)
          (
            (λ i. elim (In-keys-insert a k v m i) [
              | inl r ↦ cc (q, (e.beq_iff a k).1 r)
              | inr r ↦ d.0 r
            ]),
            insert-IsMap k v m d.1,
          )
  ]

  In-keys-delete : (j k : K) (m : Map K V) → In j (keys (delete k m)) → In j (keys m)
  unfolding delete
  In-keys-delete j k [] i = i
  In-keys-delete j k ((a, w) ∷ m) i = elim (Bool-cases (a == k)) [
    | inl q ↦ tail (In-keys-delete j k m (rw (q, delete) at i))
    | inr q ↦ elim (In-cons (rw (q, delete) at i)) [
      | inl r ↦ head r
      | inr r ↦ tail (In-keys-delete j k m r)
    ]
  ]

  pub delete-IsMap : (k : K) (m : Map K V) → IsMap m → IsMap (delete k m)
  unfolding delete
  delete-IsMap k [] d = tt
  delete-IsMap k ((a, w) ∷ m) d = elim (Bool-cases (a == k)) [
    | inl q ↦ rw (q, delete) (delete-IsMap k m d.1)
    | inr q ↦ rw (q, delete) ((λ i. d.0 (In-keys-delete a k m i)), delete-IsMap k m d.1)
  ]

  -- What a loop over the entries leaves under a key.
  abbrev pub unless : (K → V → Bool) → K → Option V → Option V
  unless p k none = none
  unless p k (some v) = if p k v then none else some v

  prune_loop-IsMap : (p : K → V → Bool) (es m : Map K V) → IsMap m → IsMap (prune_loop p es m)
  unfolding prune_loop
  prune_loop-IsMap p [] m d = d
  prune_loop-IsMap p ((k, v) ∷ es) m d = elim (Bool-cases (p k v)) [
    | inl q ↦ rw (q, prune_loop) (prune_loop-IsMap p es (delete k m) (delete-IsMap k m d))
    | inr q ↦ rw (q, prune_loop) (prune_loop-IsMap p es m d)
  ]

  pub prune-IsMap : (p : K → V → Bool) (m : Map K V) → IsMap m → IsMap (prune p m)
  unfolding prune
  prune-IsMap p m d = prune_loop-IsMap p m m d

  lookup-prune_loop_other :
      (p : K → V → Bool) (k : K) (es m : Map K V)
      → lookup k es ≡ none
      → lookup k (prune_loop p es m) ≡ lookup k m
  unfolding prune_loop lookup
  lookup-prune_loop_other p k [] m h = refl
  lookup-prune_loop_other p k ((a, w) ∷ es) m h = ground (
    arith,
    lookup-prune_loop_other p k es (delete a m),
    lookup-prune_loop_other p k es m,
    lookup-delete a k m,
  )

  lookup-prune_loop_hit :
      (p : K → V → Bool) (k : K) (v : V) (es m : Map K V)
      → IsMap es
      → lookup k es ≡ some v
      → lookup k m ≡ some v
      → lookup k (prune_loop p es m) ≡ unless p k (some v)
  unfolding prune_loop lookup
  lookup-prune_loop_hit p k v [] m d h q = cc
  lookup-prune_loop_hit p k v ((a, w) ∷ es) m d h q = elim (Bool-cases (a == k)) [
    | inl same ↦ ground (
      arith,
      e.beq_iff a k,
      lookup_of_not-In-keys a es d.0,
      lookup-prune_loop_other p k es (delete a m),
      lookup-prune_loop_other p k es m,
      lookup-delete a k m,
    )
    | inr other ↦ ground (
      arith,
      lookup-prune_loop_hit p k v es (delete a m),
      lookup-prune_loop_hit p k v es m,
      lookup-delete a k m,
      d.1,
    )
  ]

  -- A loop that deletes the entries that meet a test leaves exactly the others.
  pub lookup-prune :
      (p : K → V → Bool) (k : K) (m : Map K V)
      → IsMap m
      → lookup k (prune p m) ≡ unless p k (lookup k m)
  unfolding prune
  lookup-prune p k m d = elim (Option-cases (lookup k m)) [
    | inl h ↦ rw (h, unless) (lookup-prune_loop_other p k m m h ∙ h)
    | inr (v, h) ↦ rw (h, unless) (lookup-prune_loop_hit p k v m m d h h)
  ]
