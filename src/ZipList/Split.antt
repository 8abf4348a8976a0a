-- ===== src/ZipList/Split.antt =====
-- immutable_container/include/immutable_container/zip_list.h: the two lists of a split, and the
-- blocks that a sorted range is packed into.
use cpp_util.Util.{
  ℕ, zero, suc, ◌+◌, ◌-◌, ◌/◌, ◌≤◌, ◌<◌, ◌≡◌, ◌∙◌, refl, sym, ap, false, List, [], ◌∷◌, ◌++◌, ltb,
  leb, length, length-append, length-take, length-drop, take-length, drop-length, take, drop,
  append-nil, arith, min, Bool-cases, inl, inr, ltb→lt, All,
}
use cpp_util.Container.Outcome.{Outcome, ok}
use cpp_util.Container.Blocks.{Splits, contents}
use cpp_util.ZipList.{
  ZipList, count, split_entries, updated, split_updated, split_inserted, pack_from, pack_blocks,
}
use cpp_util.ZipList.Edit.{filled, take_append-drop, from_sorted_entries-filled, updated-middle}

module _ {ℓ} (capacity : ℕ) {E : Type ℓ} where
  -- A block of a tree holds an entry at least, and no more than the capacity.
  abbrev pub IsBlock : ZipList E → Type 0
  IsBlock z = (1 ≤ count z) × (count z ≤ capacity)

  -- The halves of one entry too many for a block, or of fewer, are two blocks.
  pub split_entries-halves :
      (es : List E)
      → 2 ≤ length es
      → length es ≤ capacity + 1
      → Splits (IsBlock) ZipList.slots (split_entries capacity es) es
  unfolding split_entries
  split_entries-halves es two room =
      let half = length es / 2 in
      let lower = length-take half es (omega arith) in
      let upper = length-drop half es in
      (
        filled (take half es),
        filled (drop half es) ∷ [],
        rw
            (
              from_sorted_entries-filled capacity (take half es) (omega arith),
              from_sorted_entries-filled capacity (drop half es) (omega arith),
              split_entries,
            )
            refl,
        (omega arith, omega arith),
        ((omega arith, omega arith), tt),
        ap (λ xs. take half es ++ xs) (append-nil (drop half es)) ∙ take_append-drop half es,
      )

  drop-append : (m n : ℕ) (es : List E) → m ≤ length es → drop n (drop m es) ≡ drop (m + n) es
  drop-append zero n es h = rw (sym_zero n) refl
    where
      sym_zero : (n : ℕ) → 0 + n ≡ n
      sym_zero n = omega arith
  drop-append (suc m) n [] h = absurd (omega arith)
  drop-append (suc m) n (e ∷ es) h =
      let next : suc (m + n) ≡ suc m + n = omega arith in
      drop-append m n es (omega arith) ∙ ap (λ k. drop k (e ∷ es)) next

  drop_all : (n : ℕ) (es : List E) → length es ≤ n → drop n es ≡ []
  drop_all zero [] h = refl
  drop_all zero (e ∷ es) h = absurd (omega arith)
  drop_all (suc n) [] h = refl
  drop_all (suc n) (e ∷ es) h = drop_all n es (omega arith)

  -- The call returns blocks that hold the given entries in their order.
  abbrev pub Packs : Outcome (List (ZipList E)) → List E → Type ℓ
  Packs m es =
      (bs : List (ZipList E)) × (m ≡ ok bs)
      × All IsBlock bs
      × (contents IsBlock ZipList.slots bs ≡ es)

  pack_from-Packs :
      (fuel : ℕ) (es : List E) (begin : ℕ)
      → 1 ≤ capacity
      → length es < begin + fuel
      → begin ≤ length es
      → Packs (pack_from capacity fuel es begin) (drop begin es)
  unfolding pack_from
  pack_from-Packs zero es begin pos h inside = absurd (omega arith)
  pack_from-Packs (suc fuel) es begin pos h inside = elim (Bool-cases (ltb begin (length es))) [
    | inr done ↦
        let end : length es ≤ begin = ground arith in
        ([], rw (done, pack_from) refl, tt, sym (drop_all begin es end))
    | inl more ↦
        let start = ltb→lt begin (length es) more in
        let end = min (length es) (begin + capacity) in
        let part = take (end - begin) (drop begin es) in
        let next : begin + (end - begin) ≡ end = omega arith in
        let size : length part ≡ end - begin =
          length-take (end - begin) (drop begin es) (rw (length-drop begin es) (omega arith)) in
        let (bs, made, blocks, rest) =
          pack_from-Packs fuel es end pos (omega arith) (omega arith) in
        (
          filled part ∷ bs,
          rw (more, from_sorted_entries-filled capacity part (omega arith), made, pack_from) refl,
          ((omega arith, omega arith), blocks),
          ap (λ xs. part ++ xs)
                (rest
                  ∙ sym
                      (drop-append begin (end - begin) es (omega arith) ∙ ap (λ k. drop k es) next))
              ∙ take_append-drop (end - begin) (drop begin es),
        )
  ]

  -- Where the capacity is positive `PackSortedEntriesIntoBlocks` ends and throws nothing; each
  -- block has an entry at least and no more than the capacity, and the blocks in their order hold
  -- exactly the entries given.
  pub pack_blocks-Packs : (es : List E) → 1 ≤ capacity → Packs (pack_blocks capacity es) es
  unfolding pack_blocks
  pack_blocks-Packs es pos = pack_from-Packs (length es + 1) es 0 pos (omega arith) (omega arith)

module _ {ℓ} (capacity : ℕ) {K V : Type ℓ} where
  -- On a block with an entry at least and no more than the capacity, a full one included, and at
  -- an index up to the count, `SplitWithInsertedBlocks` gives blocks, each with an entry at least
  -- and no more than the capacity, that hold the entries with the new one at the index.
  pub split_inserted-halves :
      (z : ZipList (K × V)) (i : ℕ) (q : K) (w : V) (xs ys : List (K × V))
      → IsBlock capacity z
      → z.slots ≡ xs ++ ys
      → length xs ≡ i
      → Splits
          (IsBlock capacity)
          ZipList.slots
          (split_inserted capacity z i q w)
          (xs ++ (q, w) ∷ ys)
  unfolding split_inserted
  split_inserted-halves z i q w xs ys block same at =
      let total = ap length same ∙ length-append xs ys in
      let longer = length-append xs ((q, w) ∷ ys) in
      let inside : ltb (count z) i ≡ false = ground arith in
      let before : take i z.slots ≡ xs = rw (same, ← at) (take-length xs ys) in
      let behind : drop i z.slots ≡ ys = rw (same, ← at) (drop-length xs ys) in
      rw (inside, before, behind)
        (split_entries-halves capacity (xs ++ (q, w) ∷ ys) (omega arith) (omega arith))

  pub split_updated-halves :
      (z : ZipList (K × V)) (i : ℕ) (w : V) (xs : List (K × V)) (e : K × V) (ys : List (K × V))
      → IsBlock capacity z
      → 2 ≤ count z
      → z.slots ≡ xs ++ e ∷ ys
      → length xs ≡ i
      → Splits (IsBlock capacity) ZipList.slots (split_updated capacity z i w) (xs ++ (e.0, w) ∷ ys)
  unfolding split_updated
  split_updated-halves z i w xs e ys block two same at =
      let total = ap length same ∙ length-append xs (e ∷ ys) in
      let longer = length-append xs ((e.0, w) ∷ ys) in
      let changed : updated i w z.slots ≡ xs ++ (e.0, w) ∷ ys =
        rw (same, ← at) (updated-middle capacity xs e ys w) in
      let inside : leb (count z) i ≡ false = ground arith in
      let several : ltb (count z) 2 ≡ false = ground arith in
      rw (inside, several, changed)
        (split_entries-halves capacity (xs ++ (e.0, w) ∷ ys) (omega arith) (omega arith))
