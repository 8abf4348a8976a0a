-- ===== src/ImmutableBlockTree/Build.antt =====
-- `FromSortedUniqueEntries` of the block tree: what it refuses, and the tree that it builds.
use cpp_util.Util.{
  ℕ, zero, suc, ◌+◌, ◌-◌, ◌/◌, ◌≤◌, ◌<◌, max, ◌≡◌, refl, List, [], ◌∷◌, ◌++◌, Option, none, some,
  arith, false, sym, ◌∙◌, ap, subst, Bool-cases, inl, inr, length, get_elem?, ◌==◌, All, All-left,
  All-right, All-imp, get_elem?-length, length-append, append_assoc, append-nil, ◌⊎◌, ==_iff,
}
use cpp_util.Container.Comparator.{Comparator}
use cpp_util.Container.Blocks.{Blocks, contents}
use cpp_util.Container.Outcome.{Outcome, ok, throw, Error, ◌>>=◌}
use cpp_util.Container.Assoc.{IsSorted, After}
use cpp_util.Container.Store.{u32_max}
use cpp_util.Container.Halves.{pow2, IsLeastHeight, halves, split_at, regroup}
use cpp_util.ImmutableBlockTree.{
  Tree, null, height, size, make_node, build_balanced, validate_sorted_unique, from_sorted_unique,
}
use cpp_util.ImmutableBlockTree.Avl.{IsAvl, entries, height_bound}
use cpp_util.ImmutableBlockTree.Rotate.{joined, make_node_lem}

module _ {ℓ} {K V : Type ℓ} ⦃c : Comparator K⦄ (S : Blocks K V) where
  open S use {B}

  abbrev all_of : List B → List (K × V)
  all_of bs = contents S.IsBlock S.view bs

  all_of-append : (xs ys : List B) → all_of (xs ++ ys) ≡ all_of xs ++ all_of ys
  all_of-append [] ys = refl
  all_of-append (x ∷ xs) ys =
      ap (λ es. S.view x ++ es) (all_of-append xs ys)
      ∙ sym (append_assoc (S.view x) (all_of xs) (all_of ys))

  -- The call builds a balanced tree of least height over the blocks `seg`.
  abbrev Built : List B → Outcome (Tree B) → Type ℓ
  Built seg m =
      (t : Tree B) × (m ≡ ok t)
      × IsAvl S t
      × (entries S t ≡ all_of seg)
      × (size t ≡ length (all_of seg))
      × IsLeastHeight (length seg) (height t)

  Built-node :
      (x : B) (xs ys : List B) (l r : Outcome (Tree B)) (o : Option B)
      → o ≡ some x
      → S.IsBlock x
      → length (all_of (xs ++ x ∷ ys)) ≤ u32_max
      → length ys ≤ length xs
      → length xs ≤ length ys + 1
      → Built xs l
      → Built ys r
      → Built (xs ++ x ∷ ys) (
          l >>= λ left. r >>= λ right. elim o [
            | none ↦ throw Error.out_of_range
            | some b ↦ make_node S b left right
          ])
  Built-node x xs ys l r o at_mid kx fits p q (tl, el, al, cl, sl, hl) (tr, er, ar, cr, sr, hr) =
      let bl = height_bound S tl al in
      let br = height_bound S tr ar in
      let (d, d', least) = halves (length xs) (length ys) (height tl) (height tr) p q hl hr in
      let top : 1 + max (height tl) (height tr) ≡ suc (height tl) = omega arith in
      let count : length (xs ++ x ∷ ys) ≡ 1 + length xs + length ys =
        omega (arith, length-append xs (x ∷ ys)) in
      let total : S.count x + size tl + size tr ≡ length (all_of (xs ++ x ∷ ys)) = omega (
        arith,
        ap length (all_of-append xs (x ∷ ys)),
        length-append (all_of xs) (all_of (x ∷ ys)),
        length-append (S.view x) (all_of ys),
        S.count_view x,
      ) in
      (
        joined S x tl tr,
        rw (el, er, at_mid) (make_node_lem S x tl tr (omega arith) (omega arith) (omega arith)),
        (al, ar, refl, refl, omega arith, omega arith, omega arith, kx),
        rw (cl, cr) (sym (all_of-append xs (x ∷ ys))),
        total,
        rw (top, count) least,
      )

  build_empty :
      (fuel : ℕ) (es : List B) (first last : ℕ)
      → first ≡ last
      → Built [] (build_balanced S (suc fuel) es first last)
  unfolding build_balanced
  build_empty fuel es first last e =
      rw ((==_iff first last).1 e, build_balanced)
        (null, refl, tt, refl, refl, unfold pow2 in omega arith)

  build_range :
      (fuel : ℕ) (es pre xs : List B) (x : B) (ys post : List B) (first last : ℕ)
      → es ≡ pre ++ ((xs ++ x ∷ ys) ++ post)
      → length pre ≡ first
      → first + (length xs + suc (length ys)) ≡ last
      → length xs ≡ (last - first) / 2
      → S.IsBlock x
      → length (all_of (xs ++ x ∷ ys)) ≤ u32_max
      → Built xs (build_balanced S fuel es first (first + (last - first) / 2))
      → Built ys (build_balanced S fuel es (first + (last - first) / 2 + 1) last)
      → Built (xs ++ x ∷ ys) (build_balanced S (suc fuel) es first last)
  unfolding build_balanced
  build_range fuel es pre xs x ys post first last e p q half kx fits built_l built_r =
      let more : (first == last) ≡ false = apart first last (omega arith) in
      rw (more, build_balanced)
        (Built-node x xs ys _ _ (get_elem? es (first + (last - first) / 2))
          (rw (regroup es pre xs x ys post e) (
            get_elem?-length (pre ++ xs) x (ys ++ post) (first + (last - first) / 2)
              (omega (arith, length-append pre xs))))
          kx fits (omega arith) (omega arith) built_l built_r)
    where
      apart : (a b : ℕ) → a < b → (a == b) ≡ false
      apart a b h = ground arith

  build_balanced_lem :
      (fuel : ℕ) (es pre seg post : List B) (first last : ℕ)
      → es ≡ pre ++ (seg ++ post)
      → length pre ≡ first
      → first + length seg ≡ last
      → length seg < fuel
      → All S.IsBlock seg
      → length (all_of seg) ≤ u32_max
      → Built seg (build_balanced S fuel es first last)
  build_balanced_lem zero es pre seg post first last e p q f ks fits = absurd (omega arith)
  build_balanced_lem (suc fuel) es pre [] post first last e p q f ks fits =
      build_empty fuel es first last (omega arith)
  build_balanced_lem (suc fuel) es pre (y ∷ seg) post first last e p q f ks fits =
      let (xs, x, ys, same, count) = split_at (y ∷ seg) ((last - first) / 2) (omega arith) in
      let total : suc (length seg) ≡ length xs + suc (length ys) =
        ap length same ∙ length-append xs (x ∷ ys) in
      let whole : es ≡ pre ++ ((xs ++ x ∷ ys) ++ post) =
        e ∙ ap (λ (l : List B). pre ++ (l ++ post)) same in
      let ks' : All S.IsBlock (xs ++ x ∷ ys) = subst (All S.IsBlock) same ks in
      let fits' : length (all_of (xs ++ x ∷ ys)) ≤ u32_max =
        subst (λ (l : List B). length (all_of l) ≤ u32_max) same fits in
      let parts : length (all_of xs) + (S.count x + length (all_of ys)) ≤ u32_max = omega (
        arith,
        ap length (all_of-append xs (x ∷ ys)),
        length-append (all_of xs) (all_of (x ∷ ys)),
        length-append (S.view x) (all_of ys),
        S.count_view x,
      ) in
      subst (λ (l : List B). Built l (build_balanced S (suc fuel) es first last)) (sym same)
        (build_range fuel es pre xs x ys post first last whole p (omega arith) count
          (All-right S.IsBlock xs (x ∷ ys) ks').0 fits'
          (build_balanced_lem fuel es pre xs (x ∷ (ys ++ post)) first _
            (whole ∙ ap (◌++◌ pre) (append_assoc xs (x ∷ ys) post)) p (omega arith) (omega arith)
            (All-left S.IsBlock xs (x ∷ ys) ks') (omega arith))
          (build_balanced_lem fuel es (pre ++ (xs ++ x ∷ [])) ys post _ last
            (whole ∙ simp append_assoc)
            (omega (arith, length-append pre (xs ++ x ∷ []), length-append xs (x ∷ [])))
            (omega arith) (omega arith) (All-right S.IsBlock xs (x ∷ ys) ks').1 (omega arith)))

  -- The check of neighbours decides whether all the entries are in order.
  validate_sorted : (es : List (K × V)) → IsSorted es → validate_sorted_unique S es ≡ ok tt
  unfolding validate_sorted_unique
  validate_sorted [] h = refl
  validate_sorted (x ∷ []) h = refl
  validate_sorted (x ∷ y ∷ es) h = rw (h.0.0, validate_sorted_unique) (validate_sorted (y ∷ es) h.1)

  validate_cases :
      (es : List (K × V))
      → ((validate_sorted_unique S es ≡ ok tt) × IsSorted es)
        ⊎ (validate_sorted_unique S es ≡ throw Error.not_sorted)
  unfolding validate_sorted_unique
  validate_cases [] = inl (refl, tt)
  validate_cases (x ∷ []) = inl (refl, (tt, tt))
  validate_cases (x ∷ y ∷ es) = elim (Bool-cases (c.less x.0 y.0)) [
    | inl p ↦ elim (validate_cases (y ∷ es)) [
      | inl (e, h) ↦ inl (
        rw (p, validate_sorted_unique) e,
        ((p, All-imp (After y.0) (After x.0) (λ z q. c.trans x.0 y.0 z.0 p q) es h.0), h),
      )
      | inr e ↦ inr (rw (p, validate_sorted_unique) e)
    ]
    | inr n ↦ inr (rw (n, validate_sorted_unique) refl)
  ]

  -- From sorted entries without repeated keys, 2 ^ 32 - 1 at most, `FromSortedUniqueEntries`
  -- packs them into blocks and returns a balanced tree of exactly these entries, of the least
  -- height for that number of blocks.
  pub from_sorted_unique_blocks :
      (es : List (K × V))
      → IsSorted es
      → length es ≤ u32_max
      → (bs : List B) × (S.pack_blocks es ≡ ok bs)
        × (t : Tree B) × (from_sorted_unique S es ≡ ok t)
        × IsAvl S t
        × (entries S t ≡ es)
        × IsLeastHeight (length bs) (height t)
  unfolding from_sorted_unique
  from_sorted_unique_blocks es sorted fits =
      let (bs, packed, ks, content) = S.pack_view es in
      let (t, made, avl, content', count, least) =
        build_balanced_lem (length bs + 1) bs [] bs [] 0 (length bs) (sym (append-nil bs)) refl
          (omega arith) (omega arith) ks (subst (λ l. length l ≤ u32_max) (sym content) fits) in
      (bs, packed, t, rw (validate_sorted es sorted, packed) made, avl, content' ∙ content, least)

  -- Entries out of order, or with a key twice, make `FromSortedUniqueEntries` throw its invalid
  -- argument.
  pub from_sorted_unique_unsorted_blocks :
      (es : List (K × V)) → ¬ IsSorted es → from_sorted_unique S es ≡ throw Error.not_sorted
  unfolding from_sorted_unique
  from_sorted_unique_unsorted_blocks es unsorted = elim (validate_cases es) [
    | inl (e, sorted) ↦ absurd (unsorted sorted)
    | inr e ↦ rw e refl
  ]
