-- ===== src/ImmutableTree/Build.antt =====
-- `FromSortedUniqueEntries`: what it refuses, and the tree that it builds.
use cpp_util.Util.{
  ℕ, zero, suc, ◌+◌, ◌-◌, ◌/◌, ◌≤◌, ◌<◌, max, ◌≡◌, refl, List, [], ◌∷◌, ◌++◌, Option, none, some,
  arith, false, sym, ◌∙◌, ap, subst, Bool-cases, inl, inr, length, get_elem?, ◌==◌, All-imp,
  get_elem?-length, length-append, append_assoc, append-nil, ◌⊎◌, ==_iff,
}
use cpp_util.Container.Comparator.{Comparator}
use cpp_util.Container.Outcome.{Outcome, ok, throw, Error, ◌>>=◌}
use cpp_util.Container.Assoc.{IsSorted, After}
use cpp_util.Container.Halves.{pow2, IsLeastHeight, halves, split_at, regroup}
use cpp_util.ImmutableTree.{
  Tree, null, u32_max, height, size, make_node, build_balanced, validate_sorted_unique,
  from_sorted_unique,
}
use cpp_util.ImmutableTree.Avl.{IsAvl, entries, height_bound}
use cpp_util.ImmutableTree.Rotate.{joined, make_node_lem}

module _ {ℓ κ} {K : Type ℓ} {V : Type κ} where
  -- The call builds a balanced tree of least height over the entries `seg`.
  abbrev Built : List (K × V) → Outcome (Tree K V) → Type (ℓ ⊔ κ)
  Built seg m =
      (t : Tree K V) × (m ≡ ok t)
      × IsAvl t
      × (entries t ≡ seg)
      × (size t ≡ length seg)
      × IsLeastHeight (size t) (height t)

  Built-node :
      (x : K × V) (xs ys : List (K × V)) (l r : Outcome (Tree K V)) (o : Option (K × V))
      → o ≡ some x
      → length xs + length ys < u32_max
      → length ys ≤ length xs
      → length xs ≤ length ys + 1
      → Built xs l
      → Built ys r
      → Built (xs ++ x ∷ ys) (
          l >>= λ left. r >>= λ right. elim o [
            | none ↦ throw Error.out_of_range
            | some e ↦ make_node e.0 e.1 left right
          ])
  Built-node x xs ys l r o at_mid fits p q (tl, el, al, cl, sl, hl) (tr, er, ar, cr, sr, hr) =
      let bl = height_bound tl al in
      let br = height_bound tr ar in
      let (d, d', least) =
        halves (size tl) (size tr) (height tl) (height tr) (omega arith) (omega arith) hl hr in
      let top : 1 + max (height tl) (height tr) ≡ suc (height tl) = omega arith in
      (
        joined x.0 x.1 tl tr,
        rw (el, er, at_mid) (make_node_lem x.0 x.1 tl tr (omega arith) (omega arith) (omega arith)),
        (al, ar, refl, refl, omega arith, omega arith, omega arith),
        rw (cl, cr) refl,
        omega (arith, length-append xs (x ∷ ys)),
        rw top least,
      )

  build_empty :
      (fuel : ℕ) (es : List (K × V)) (first last : ℕ)
      → first ≡ last
      → Built [] (build_balanced (suc fuel) es first last)
  unfolding build_balanced
  build_empty fuel es first last e =
      rw ((==_iff first last).1 e, build_balanced)
        (null, refl, tt, refl, refl, unfold pow2 in omega arith)

  build_range :
      (fuel : ℕ) (es pre xs : List (K × V)) (x : K × V) (ys post : List (K × V)) (first last : ℕ)
      → es ≡ pre ++ ((xs ++ x ∷ ys) ++ post)
      → length pre ≡ first
      → first + (length xs + suc (length ys)) ≡ last
      → length xs ≡ (last - first) / 2
      → length xs + length ys < u32_max
      → Built xs (build_balanced fuel es first (first + (last - first) / 2))
      → Built ys (build_balanced fuel es (first + (last - first) / 2 + 1) last)
      → Built (xs ++ x ∷ ys) (build_balanced (suc fuel) es first last)
  unfolding build_balanced
  build_range fuel es pre xs x ys post first last e p q half fits left right =
      let more : (first == last) ≡ false = ground arith in
      rw (more, build_balanced)
        (Built-node x xs ys _ _ (get_elem? es (first + (last - first) / 2))
          (rw (regroup es pre xs x ys post e) (
            get_elem?-length (pre ++ xs) x (ys ++ post) (first + (last - first) / 2)
              (omega (arith, length-append pre xs))))
          fits (omega arith) (omega arith) left right)

  build_balanced_lem :
      (fuel : ℕ) (es pre seg post : List (K × V)) (first last : ℕ)
      → es ≡ pre ++ (seg ++ post)
      → length pre ≡ first
      → first + length seg ≡ last
      → length seg < fuel
      → length seg ≤ u32_max
      → Built seg (build_balanced fuel es first last)
  build_balanced_lem zero es pre seg post first last e p q f fits = absurd (omega arith)
  build_balanced_lem (suc fuel) es pre [] post first last e p q f fits =
      build_empty fuel es first last (omega arith)
  build_balanced_lem (suc fuel) es pre (y ∷ seg) post first last e p q f fits =
      let (xs, x, ys, same, count) = split_at (y ∷ seg) ((last - first) / 2) (omega arith) in
      let total : suc (length seg) ≡ length xs + suc (length ys) =
        ap length same ∙ length-append xs (x ∷ ys) in
      let whole : es ≡ pre ++ ((xs ++ x ∷ ys) ++ post) =
        e ∙ ap (λ (l : List (K × V)). pre ++ (l ++ post)) same in
      subst (λ (l : List (K × V)). Built l (build_balanced (suc fuel) es first last)) (sym same)
        (build_range fuel es pre xs x ys post first last whole p (omega arith) count (omega arith)
          (build_balanced_lem fuel es pre xs (x ∷ (ys ++ post)) first _
            (whole ∙ ap (◌++◌ pre) (append_assoc xs (x ∷ ys) post)) p (omega arith) (omega arith)
            (omega arith))
          (build_balanced_lem fuel es (pre ++ (xs ++ x ∷ [])) ys post _ last
            (whole ∙ simp append_assoc)
            (omega (arith, length-append pre (xs ++ x ∷ []), length-append xs (x ∷ [])))
            (omega arith) (omega arith) (omega arith)))

module _ {ℓ κ} {K : Type ℓ} {V : Type κ} ⦃c : Comparator K⦄ where
  -- The check of neighbours decides whether all the entries are in order.
  validate_sorted : (es : List (K × V)) → IsSorted es → validate_sorted_unique es ≡ ok tt
  unfolding validate_sorted_unique
  validate_sorted [] h = refl
  validate_sorted (x ∷ []) h = refl
  validate_sorted (x ∷ y ∷ es) h = rw (h.0.0, validate_sorted_unique) (validate_sorted (y ∷ es) h.1)

  validate_cases :
      (es : List (K × V))
      → ((validate_sorted_unique es ≡ ok tt) × IsSorted es)
        ⊎ (validate_sorted_unique es ≡ throw Error.not_sorted)
  unfolding validate_sorted_unique
  validate_cases [] = inl (refl, tt)
  validate_cases (x ∷ []) = inl (refl, (tt, tt))
  validate_cases (x ∷ y ∷ es) = elim (Bool-cases (c.less x.0 y.0)) [
    | inl p ↦ elim (validate_cases (y ∷ es)) [
      | inl (e, h) ↦ inl (
        rw (p, validate_sorted_unique) e,
        ((p, All-imp (After y.0) (After x.0) (λ z q. c.trans x.0 y.0 z.0 p q) es h.0), h),
      )
      | inr e ↦ inr (rw (p, validate_sorted_unique) e)
    ]
    | inr n ↦ inr (rw (n, validate_sorted_unique) refl)
  ]

  -- From sorted entries without repeated keys, 2 ^ 32 - 1 at most, `FromSortedUniqueEntries`
  -- returns a balanced tree of exactly these entries, of the least height that so many entries
  -- allow.
  pub from_sorted_unique_sorted :
      (es : List (K × V))
      → IsSorted es
      → length es ≤ u32_max
      → (t : Tree K V) × (from_sorted_unique es ≡ ok t)
        × IsAvl t
        × (entries t ≡ es)
        × IsLeastHeight (length es) (height t)
  unfolding from_sorted_unique
  from_sorted_unique_sorted es sorted fits =
      let (t, made, avl, content, count, least) =
        build_balanced_lem (length es + 1) es [] es [] 0 (length es) (sym (append-nil es)) refl
          (omega arith) (omega arith) fits in
      (t, rw (validate_sorted es sorted, made) refl, avl, content, rw (← count) least)

  -- Entries out of order, or with a key twice, make `FromSortedUniqueEntries` throw its invalid
  -- argument.
  pub from_sorted_unique_unsorted :
      (es : List (K × V)) → ¬ IsSorted es → from_sorted_unique es ≡ throw Error.not_sorted
  unfolding from_sorted_unique
  from_sorted_unique_unsorted es unsorted = elim (validate_cases es) [
    | inl (e, sorted) ↦ absurd (unsorted sorted)
    | inr e ↦ rw e refl
  ]
