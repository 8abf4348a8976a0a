-- ===== src/ImtMap/FromEntries.antt =====
-- `ImtMap::FromEntries`: when it refuses, and what the map holds else.
use mathlib.Core.List.{Perm, Permᴰ, perm_middle}
use mathlib.Core.List.Perm
use mathlib.Core.Logic.{∥∥₁_elim}
use native.Mathlib.Nat.{ℕ_set}
use cpp_util.Util.{
  ◌≤◌, ◌≡◌, refl, List, [], ◌∷◌, ◌++◌, Option, none, some, arith, true, false, ◌∙◌, ap, ◌⊎◌, inl,
  inr, Bool-cases, length, All, All-imp,
}
use cpp_util.Container.Comparator.{Comparator, Equiv}
use cpp_util.Container.Outcome.{Outcome, ok}
use cpp_util.Container.Assoc.{IsSorted, After}
use cpp_util.Container.Store.{Store, u32_max}
use cpp_util.ImtMap.{ImtMap, has_duplicate, from_entries}
use cpp_util.ImtMap.Laws.{IsValid}

module _ {ℓ} {A : Type ℓ} where
  length-permᴰ : {xs ys : List A} → Permᴰ xs ys → length xs ≡ length ys
  length-permᴰ Permᴰ.nil = refl
  length-permᴰ (Permᴰ.cons e p) = omega (arith, length-permᴰ p)
  length-permᴰ (Permᴰ.swap e e') = refl
  length-permᴰ (Permᴰ.trans p q) = length-permᴰ p ∙ length-permᴰ q

  pub length-perm : {xs ys : List A} → Perm xs ys → length xs ≡ length ys
  length-perm h = ∥∥₁_elim h (ℕ_set _ _) length-permᴰ

module _ {ℓ} {K V : Type ℓ} ⦃c : Comparator K⦄ where
  -- No entry is less than one before it.
  abbrev pub IsInOrder : List (K × V) → Type ℓ
  IsInOrder [] = Unit
  IsInOrder (e ∷ es) = All (λ (x : K × V). c.less x.0 e.0 ≡ false) es × IsInOrder es

  -- What `std::sort` promises, with the comparison of the keys.
  pub record Sorts (sort : List (K × V) → List (K × V)) : Type ℓ where
    pub permutes : (es : List (K × V)) → Perm (sort es) es
    pub orders : (es : List (K × V)) → IsInOrder (sort es)

module _ {ℓ} {K V : Type ℓ} ⦃c : Comparator K⦄ (S : Store K V) where
  -- Two entries of equivalent keys that stand side by side.
  abbrev Neighbours : List (K × V) → Type ℓ
  Neighbours es =
      (xs : List (K × V)) × (x : K × V) × (y : K × V) × (ys : List (K × V)) × (es
        ≡ xs ++ x ∷ y ∷ ys)
      × Equiv x.0 y.0

  has_duplicate_cases :
      (es : List (K × V))
      → IsInOrder es
      → ((has_duplicate S es ≡ true) × Neighbours es) ⊎ ((has_duplicate S es ≡ false) × IsSorted es)
  unfolding has_duplicate
  has_duplicate_cases [] order = inr (refl, tt)
  has_duplicate_cases (x ∷ []) order = inr (refl, (tt, tt))
  has_duplicate_cases (x ∷ y ∷ es) order = elim (Bool-cases (c.less x.0 y.0)) [
    | inr n ↦ inl (rw (n, order.0.0) refl, ([], x, y, es, refl, (n, order.0.0)))
    | inl p ↦ elim (has_duplicate_cases (y ∷ es) order.1) [
      | inl (e, (xs, a, b, ys, same, eq)) ↦
          inl (rw (p, e) refl, (x ∷ xs, a, b, ys, ap (◌∷◌ x) same, eq))
      | inr (e, sorted) ↦ inr (
        rw (p, e) refl,
        ((p, All-imp (After y.0) (After x.0) (λ z q. c.trans x.0 y.0 z.0 p q) es sorted.0), sorted),
      )
    ]
  ]

  -- How a call of `FromEntries` ends.
  pub data Made (es : List (K × V)) : Outcome (Option (ImtMap S)) → Type ℓ where
    duplicate :
        {x y : K × V} {rest : List (K × V)}
        → Perm (x ∷ y ∷ rest) es
        → Equiv x.0 y.0
        → Made es (ok none)
    made : {m : ImtMap S} → IsValid S m → Perm (S.view m.tree) es → Made es (ok (some m))

  -- From at most 2 ^ 32 - 1 entries, with a sort that permutes its input and leaves no entry less
  -- than one before it, `FromEntries` returns: it refuses only where two of the given entries
  -- have equivalent keys, and else gives a valid map whose entries are a permutation of the given
  -- ones.
  pub from_entries-Made :
      (sort : List (K × V) → List (K × V)) (es : List (K × V))
      → Sorts sort
      → length es ≤ u32_max
      → Made es (from_entries S sort es)
  unfolding from_entries
  from_entries-Made sort es sorts fits = elim (has_duplicate_cases (sort es) (sorts.orders es)) [
    | inl (e, (xs, x, y, ys, same, eq)) ↦
        let moved : Perm (x ∷ y ∷ (xs ++ ys)) (xs ++ x ∷ y ∷ ys) =
          Perm.symm (Perm.trans (perm_middle xs (y ∷ ys)) (Perm.cons x (perm_middle xs ys))) in
        rw (e, from_entries) (duplicate (Perm.trans moved (rw (← same) (sorts.permutes es))) eq)
    | inr (e, sorted) ↦
        let fits' : length (sort es) ≤ u32_max = rw (length-perm (sorts.permutes es)) fits in
        let (t, made_t, valid, view) = S.from_sorted_view (sort es) sorted fits' in
        rw (e, made_t, from_entries)
          (made {m = record { tree = t }} valid (rw view (sorts.permutes es)))
  ]
