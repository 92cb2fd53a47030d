-- ===== src/Prelude/BinarySearch.antt =====
-- `sort.Search` of the Go library.
use Prim.Native.Nat.{ℕ, zero, suc, ◌+◌, ◌/◌, ◌-◌, ◌<◌, ◌≤◌}
use mathlib.Core.Path.{◌≡◌}
use mathlib.Core.Logic.{inl, inr}
use mathlib.Core.Bool.{Bool, true, false}
use native.Mathlib.Omega.{arith}
use distributed_file_system.Prelude.Tests.{ltb, ltb→lt, Bool-cases}

-- The interval that is left halves in each round; a unit of fuel for each element is enough.
unfoldable pub search_between : ℕ → (ℕ → Bool) → ℕ → ℕ → ℕ
search_between zero p i j = i
search_between (suc fuel) p i j = elim (ltb i j) [
  | false ↦ i
  | true ↦ elim (p ((i + j) / 2)) [
    | true ↦ search_between fuel p i ((i + j) / 2)
    | false ↦ search_between fuel p ((i + j) / 2 + 1) j
  ]
]

unfoldable pub sort_search : ℕ → (ℕ → Bool) → ℕ
sort_search n p = search_between n p 0 n

-- The least index in i .. j at which the predicate holds, or j.
pub record IsLeast (p : ℕ → Bool) (i j r : ℕ) : Type 0 where
  pub lower : i ≤ r
  pub upper : r ≤ j
  pub before : (k : ℕ) → i ≤ k → k < r → p k ≡ false
  pub after : (k : ℕ) → r ≤ k → k < j → p k ≡ true

abbrev pub IsMonotone : (ℕ → Bool) → ℕ → Type 0
IsMonotone p n = (k l : ℕ) → k ≤ l → l < n → p k ≡ true → p l ≡ true

module _ (p : ℕ → Bool) (n : ℕ) (mono : IsMonotone p n) where
  false_below : (k l : ℕ) → k ≤ l → l < n → p l ≡ false → p k ≡ false
  false_below k l h b e = elim (Bool-cases (p k)) [
    | inl t ↦ absurd (ground (arith, mono k l h b t))
    | inr f ↦ f
  ]

  mono_from : (m k j : ℕ) → j ≤ n → p m ≡ true → (k < m → p k ≡ true) → k < j → p k ≡ true
  mono_from m k j b hit f u = elim (Bool-cases (ltb k m)) [
    | inl lt ↦ f (ltb→lt k m lt)
    | inr ge ↦ mono m k (ground arith) (omega arith) hit
  ]

  false_until : (m k : ℕ) → m < n → p m ≡ false → (m + 1 ≤ k → p k ≡ false) → p k ≡ false
  false_until m k b miss f = elim (Bool-cases (ltb m k)) [
    | inl lt ↦ f (omega (arith, ltb→lt m k lt))
    | inr ge ↦ false_below k m (ground arith) b miss
  ]

  search_between-IsLeast :
      (fuel i j : ℕ) → j - i ≤ fuel → i ≤ j → j ≤ n → IsLeast p i j (search_between fuel p i j)
  unfolding search_between
  search_between-IsLeast zero i j f h b = record {
    lower = omega arith;
    upper = omega arith;
    before = λ k l u. absurd (omega arith);
    after = λ k l u. absurd (omega arith);
  }
  search_between-IsLeast (suc fuel) i j f h b = elim (Bool-cases (ltb i j)) [
    | inr done ↦
        rw (done, search_between)
          (record {
            lower = omega arith;
            upper = omega arith;
            before = λ k l u. absurd (omega arith);
            after = λ k l u. absurd (ground arith);
          })
    | inl more ↦ elim (Bool-cases (p ((i + j) / 2))) [
      | inl hit ↦
          let lt = ltb→lt i j more in
          let r =
            search_between-IsLeast fuel i ((i + j) / 2) (omega arith) (omega arith) (omega arith) in
          rw (more, hit, search_between)
            (record {
              lower = r.lower;
              upper = omega (arith, r.upper);
              before = r.before;
              after = λ k l u. mono_from ((i + j) / 2) k j b hit (r.after k l) u;
            })
      | inr miss ↦
          let lt = ltb→lt i j more in
          let r = search_between-IsLeast fuel ((i + j) / 2 + 1) j (omega arith) (omega arith) b in
          rw (more, miss, search_between)
            (record {
              lower = omega (arith, r.lower);
              upper = r.upper;
              before =
                  λ k l u. false_until ((i + j) / 2) k (omega arith) miss (λ g. r.before k g u);
              after = r.after;
            })
    ]
  ]

  -- `sort.Search` finds the least index at which a monotone predicate holds.
  pub sort_search-IsLeast : IsLeast p 0 n (sort_search n p)
  unfolding sort_search
  sort_search-IsLeast = search_between-IsLeast n 0 n (omega arith) (omega arith) (omega arith)
