-- ===== src/ZipList/AsBlocks.antt =====
-- immutable_container/include/immutable_container/zip_list.h, as the `Block` of an `ImmutableBlockTree`.
use cpp_util.Util.{
  ℕ, ◌+◌, ◌≤◌, ◌<◌, ◌≡◌, refl, true, false, List, [], ◌∷◌, ◌++◌, length, arith, ap, ◌∙◌,
  length-append, lt→ltb,
}
use cpp_util.Container.Comparator.{Comparator}
use cpp_util.Container.Outcome.{Outcome, ok, throw}
use cpp_util.Container.Assoc.{IsSorted, cut}
use cpp_util.Container.Blocks.{Blocks, Makes, Splits}
use cpp_util.ZipList.{
  ZipList, count, full, can_insert, can_update, can_merge, key_at, value_at, lower_bound,
  find_value, from_sorted_entries, pack_blocks, with_inserted, with_updated, with_erased,
  split_inserted, split_updated, merged, append_to,
}
use cpp_util.ZipList.Bound.{entry_at-middle, lower_bound-length, find_value-find}
use cpp_util.ZipList.Edit.{
  filled, from_sorted_entries-filled, with_inserted-filled, with_updated-filled, with_erased-filled,
  merged-filled,
}
use cpp_util.ZipList.Split.{IsBlock, pack_blocks-Packs, split_inserted-halves}

module _ {ℓ} {K V : Type ℓ} ⦃c : Comparator K⦄ where
  -- The index that the search returns, and some index where it throws.
  abbrev pub lower_index : ZipList (K × V) → K → ℕ
  lower_index z q = elim (lower_bound z q) [ ok i ↦ i | throw e ↦ 0 ]

  pub can_update-inside :
      (z : ZipList (K × V)) (i : ℕ) (w : V) → i < count z → can_update z i w ≡ true
  unfolding can_update
  can_update-inside z i w h = lt→ltb i (count z) h

  module _ (capacity : ℕ) (pos : 1 ≤ capacity) where
    pub made :
        (m : Outcome (ZipList (K × V))) (es : List (K × V))
        → m ≡ ok (filled es)
        → 1 ≤ length es
        → length es ≤ capacity
        → Makes (IsBlock capacity) ZipList.slots m es
    made m es e low high = (filled es, e, (low, high), refl)

    pub lower_index-length :
        (z : ZipList (K × V)) (q : K)
        → IsSorted z.slots
        → lower_index z q ≡ length (cut q z.slots).below
    lower_index-length z q sorted = rw (lower_bound-length z q sorted, lower_index) refl

    pub key_at-middle :
        (z : ZipList (K × V)) (i : ℕ) (xs : List (K × V)) (e : K × V) (ys : List (K × V))
        → z.slots ≡ xs ++ e ∷ ys
        → length xs ≡ i
        → key_at z i ≡ ok e.0
    unfolding key_at
    key_at-middle z i xs e ys same at = rw (entry_at-middle z xs e ys i same at) refl

    pub value_at-middle :
        (z : ZipList (K × V)) (i : ℕ) (xs : List (K × V)) (e : K × V) (ys : List (K × V))
        → z.slots ≡ xs ++ e ∷ ys
        → length xs ≡ i
        → value_at z i ≡ ok e.1
    unfolding value_at
    value_at-middle z i xs e ys same at = rw (entry_at-middle z xs e ys i same at) refl

    pub inserted :
        (z : ZipList (K × V)) (i : ℕ) (q : K) (w : V) (xs ys : List (K × V))
        → IsBlock capacity z
        → full capacity z ≡ false
        → z.slots ≡ xs ++ ys
        → length xs ≡ i
        → Makes
            (IsBlock capacity)
            ZipList.slots
            (with_inserted capacity z i q w)
            (xs ++ (q, w) ∷ ys)
    unfolding full
    inserted z i q w xs ys block not_full same at =
        let room : count z < capacity = ground arith in
        let total = ap length same ∙ length-append xs ys in
        let longer = length-append xs ((q, w) ∷ ys) in
        made _ _ (with_inserted-filled capacity z i q w xs ys room same at) (omega arith)
          (omega arith)

    pub changed :
        (z : ZipList (K × V)) (i : ℕ) (w : V) (xs : List (K × V)) (e : K × V) (ys : List (K × V))
        → IsBlock capacity z
        → z.slots ≡ xs ++ e ∷ ys
        → length xs ≡ i
        → Makes (IsBlock capacity) ZipList.slots (with_updated capacity z i w) (xs ++ (e.0, w) ∷ ys)
    changed z i w xs e ys block same at =
        let total = ap length same ∙ length-append xs (e ∷ ys) in
        let as_long = length-append xs ((e.0, w) ∷ ys) in
        made _ _ (with_updated-filled capacity z i w xs e ys block.1 same at) (omega arith)
          (omega arith)

    -- An update fits at every index of an entry, so it is never split.
    pub split_changed :
        (z : ZipList (K × V)) (i : ℕ) (w : V) (xs : List (K × V)) (e : K × V) (ys : List (K × V))
        → can_update z i w ≡ false
        → z.slots ≡ xs ++ e ∷ ys
        → length xs ≡ i
        → Splits
            (IsBlock capacity)
            ZipList.slots
            (split_updated capacity z i w)
            (xs ++ (e.0, w) ∷ ys)
    unfolding can_update
    split_changed z i w xs e ys outside same at =
        let total = ap length same ∙ length-append xs (e ∷ ys) in
        let inside = lt→ltb i (count z) (omega arith) in absurd (ground arith)

    pub removed :
        (z : ZipList (K × V)) (i : ℕ) (xs : List (K × V)) (e : K × V) (ys : List (K × V))
        → IsBlock capacity z
        → 1 < count z
        → z.slots ≡ xs ++ e ∷ ys
        → length xs ≡ i
        → Makes (IsBlock capacity) ZipList.slots (with_erased capacity z i) (xs ++ ys)
    removed z i xs e ys block several same at =
        let total = ap length same ∙ length-append xs (e ∷ ys) in
        let shorter = length-append xs ys in
        made _ _ (with_erased-filled capacity z i xs e ys block.1 same at) (omega arith)
          (omega arith)

    pub joined :
        (a b : ZipList (K × V))
        → IsBlock capacity a
        → IsBlock capacity b
        → can_merge capacity a b ≡ true
        → Makes (IsBlock capacity) ZipList.slots (merged capacity a b) (a.slots ++ b.slots)
    unfolding can_merge
    joined a b ha hb fits =
        let room : count a + count b ≤ capacity = ground arith in
        let total = length-append a.slots b.slots in
        made _ _ (merged-filled capacity a b fits) (omega arith) (omega arith)

    pub append_to-same :
        (z : ZipList (K × V)) (out : List (K × V)) → append_to z out ≡ out ++ z.slots
    unfolding append_to
    append_to-same z out = refl

    abbrev pub zip_blocks : Blocks K V
    zip_blocks = record {
      B = ZipList (K × V);
      IsBlock = IsBlock capacity;
      view = ZipList.slots;
      count = count;
      full = full capacity;
      can_insert = can_insert capacity;
      can_update = can_update;
      key_at = key_at;
      value_at = value_at;
      lower_bound = lower_index;
      find_value = find_value;
      from_sorted_entries = from_sorted_entries capacity;
      pack_blocks = pack_blocks capacity;
      with_inserted = with_inserted capacity;
      with_updated = with_updated capacity;
      with_erased = with_erased capacity;
      split_inserted = split_inserted capacity;
      split_updated = split_updated capacity;
      can_merge = can_merge capacity;
      merged = merged capacity;
      append_to = append_to;
      count_view = λ b. refl;
      count_pos = λ b block. block.0;
      key_at_view = key_at-middle;
      value_at_view = value_at-middle;
      lower_bound_view = lower_index-length;
      find_value_view = find_value-find;
      single_view =
          λ e. made _ (e ∷ []) (from_sorted_entries-filled capacity (e ∷ []) pos) (omega arith) pos;
      pack_view = λ es. pack_blocks-Packs capacity es pos;
      inserted_view = λ b i q w xs ys block not_full fits same at.
          inserted b i q w xs ys block not_full same at;
      split_inserted_view = split_inserted-halves capacity;
      updated_view = λ b i w xs e ys block fits same at. changed b i w xs e ys block same at;
      split_updated_view =
          λ b i w xs e ys block outside same at. split_changed b i w xs e ys outside same at;
      erased_view = removed;
      merged_view = joined;
      append_to_view = append_to-same;
    }
