-- ===== src/Prelude/Sort.antt =====
-- `sort.SliceStable` of the Go library, as stable insertion: each element goes before the first
-- later one that is not less than it.
use mathlib.Core.Path.{◌≡◌}
use mathlib.Core.Logic.{inl, inr}
use mathlib.Core.Bool.{Bool, true, false}
use mathlib.Core.List.{List, [], ◌∷◌, Perm}
use mathlib.Core.List.Perm
use distributed_file_system.Prelude.Tests.{if◌then◌else◌, Bool-cases}
use distributed_file_system.Prelude.Lists.{All}

-- A strict weak order: what `sort` documents that `less` must be.
pub record IsWeakOrder {ℓ} {A : Type ℓ} (less : A → A → Bool) : Type ℓ where
  pub asym : (a b : A) → less a b ≡ true → less b a ≡ false
  pub trans : (a b c : A) → less b a ≡ false → less c b ≡ false → less c a ≡ false

module _ {ℓ} {A : Type ℓ} (less : A → A → Bool) where
  unfoldable pub insert_sorted : A → List A → List A
  insert_sorted x [] = x ∷ []
  insert_sorted x (y ∷ ys) = if less y x then y ∷ insert_sorted x ys else x ∷ y ∷ ys

  unfoldable pub sort_stable : List A → List A
  unfolding insert_sorted
  sort_stable [] = []
  sort_stable (x ∷ xs) = insert_sorted x (sort_stable xs)

  -- No element is less than one before it.
  abbrev pub IsSorted : List A → Type ℓ
  IsSorted [] = Unit
  IsSorted (x ∷ xs) = All (λ y. less y x ≡ false) xs × IsSorted xs

  All-insert_sorted {κ} :
      (P : A → Type κ) (x : A) (xs : List A) → P x → All P xs → All P (insert_sorted x xs)
  unfolding insert_sorted
  All-insert_sorted P x [] p ps = (p, tt)
  All-insert_sorted P x (y ∷ ys) p ps = elim (Bool-cases (less y x)) [
    | inl e ↦ rw e (ps.0, All-insert_sorted P x ys p ps.1)
    | inr e ↦ rw e (p, ps)
  ]

  All-trans :
      (o : IsWeakOrder less) (x y : A) (ys : List A)
      → less y x ≡ false
      → All (λ z. less z y ≡ false) ys
      → All (λ z. less z x ≡ false) ys
  All-trans o x y [] h ps = tt
  All-trans o x y (z ∷ ys) h ps = (o.trans x y z h ps.0, All-trans o x y ys h ps.1)

  insert_sorted-IsSorted :
      (o : IsWeakOrder less) (x : A) (xs : List A) → IsSorted xs → IsSorted (insert_sorted x xs)
  unfolding insert_sorted
  insert_sorted-IsSorted o x [] s = (tt, tt)
  insert_sorted-IsSorted o x (y ∷ ys) s = elim (Bool-cases (less y x)) [
    | inl e ↦ rw e (All-insert_sorted _ x ys (o.asym y x e) s.0, insert_sorted-IsSorted o x ys s.1)
    | inr e ↦ rw e ((e, All-trans o x y ys e s.0), s)
  ]

  pub sort_stable-IsSorted : (o : IsWeakOrder less) (xs : List A) → IsSorted (sort_stable xs)
  unfolding sort_stable
  sort_stable-IsSorted o [] = tt
  sort_stable-IsSorted o (x ∷ xs) =
      insert_sorted-IsSorted o x (sort_stable xs) (sort_stable-IsSorted o xs)

  insert_sorted-perm : (x : A) (xs : List A) → Perm (insert_sorted x xs) (x ∷ xs)
  unfolding insert_sorted
  insert_sorted-perm x [] = Perm.refl (x ∷ [])
  insert_sorted-perm x (y ∷ ys) = elim (Bool-cases (less y x)) [
    | inl e ↦ rw e (Perm.trans (Perm.cons y (insert_sorted-perm x ys)) (Perm.swap x y ys))
    | inr e ↦ rw e (Perm.refl (x ∷ y ∷ ys))
  ]

  pub sort_stable-perm : (xs : List A) → Perm (sort_stable xs) xs
  unfolding sort_stable
  sort_stable-perm [] = Perm.refl []
  sort_stable-perm (x ∷ xs) =
      Perm.trans (insert_sorted-perm x (sort_stable xs)) (Perm.cons x (sort_stable-perm xs))
