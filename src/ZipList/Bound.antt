-- ===== src/ZipList/Bound.antt =====
-- immutable_container/include/immutable_container/zip_list.h: the search for a key in a block.
use cpp_util.Util.{
  ℕ, zero, suc, ◌+◌, ◌-◌, ◌/◌, ◌<◌, ◌≡◌, ◌∙◌, refl, sym, ap, true, false, Option, none, some, List,
  [], ◌∷◌, ◌++◌, length, length-append, append_assoc, append-nil, arith, All, Bool-cases,
  Option-cases, inl, inr, get_elem?-length, subst, ◌==◌,
}
use cpp_util.Container.Comparator.{Comparator}
use cpp_util.Container.Outcome.{ok, ◌>>=◌}
use cpp_util.Container.Assoc
use cpp_util.Container.Assoc.{IsSorted, Before, After, cut}
use cpp_util.Container.Assoc.Sorted.{IsSorted-left, IsSorted-right}
use cpp_util.Container.Assoc.Below.{below-left, below-right}
use cpp_util.Container.Assoc.Cutting.{cut-nil, join-cut, entry, here-IsHit, IsHit}
use cpp_util.Container.Assoc.Laws.{find-cut, above-After}
use cpp_util.Container.Halves.{split_at, regroup}
use cpp_util.ZipList.{ZipList, count, entry_at, bound_loop, lower_bound, find_entry, find_value}

module _ {ℓ} {K V : Type ℓ} ⦃c : Comparator K⦄ where
  pub entry_at-middle :
      (z : ZipList (K × V)) (xs : List (K × V)) (e : K × V) (ys : List (K × V)) (i : ℕ)
      → z.slots ≡ xs ++ e ∷ ys
      → length xs ≡ i
      → entry_at z i ≡ ok e
  unfolding entry_at
  entry_at-middle z xs e ys i same at = rw (same, get_elem?-length xs e ys i at, entry_at) refl

  -- The loop, on the part of the block that is left.
  bound_loop_lem :
      (fuel : ℕ) (z : ZipList (K × V)) (q : K) (pre es post : List (K × V)) (first left : ℕ)
      → z.slots ≡ pre ++ (es ++ post)
      → length pre ≡ first
      → length es ≡ left
      → left < fuel
      → IsSorted es
      → bound_loop fuel z q first left ≡ ok (first + length (cut q es).below)
  unfolding bound_loop
  bound_loop_lem zero z q pre es post first left same p n h sorted = absurd (omega arith)
  bound_loop_lem (suc fuel) z q pre [] post first zero same p n h sorted =
      rw (cut-nil {V = V} q) (ap ok (omega arith))
  bound_loop_lem (suc fuel) z q pre [] post first (suc left) same p n h sorted =
      absurd (omega arith)
  bound_loop_lem (suc fuel) z q pre (e0 ∷ es0) post first zero same p n h sorted =
      absurd (omega arith)
  bound_loop_lem (suc fuel) z q pre (e0 ∷ es0) post first (suc left) same p n h sorted =
      let some_left : (suc left == 0) ≡ false = ground arith in
      let half = suc left / 2 in
      let (xs, e, ys, parts, at) = split_at (e0 ∷ es0) half (omega arith) in
      let place = regroup z.slots pre xs e ys post (rw (← parts) same) in
      let read =
        entry_at-middle z (pre ++ xs) e (ys ++ post) (first + half) place
          (rw (length-append pre xs) (omega arith)) in
      let sorted' = subst IsSorted parts sorted in
      elim (Bool-cases (c.less e.0 q)) [
        | inl below ↦
            rw (some_left, read, below, bound_loop)
              (bound_loop_lem fuel z q (pre ++ (xs ++ e ∷ [])) ys post (first + half + 1)
                  (suc left - (half + 1)) (place ∙ simp append_assoc)
                  (rw (length-append pre (xs ++ e ∷ []), length-append xs (e ∷ [])) (omega arith))
                  (omega (arith, ap length parts, length-append xs (e ∷ ys))) (omega arith)
                  (IsSorted-right (e ∷ []) ys (IsSorted-right xs (e ∷ ys) sorted'))
                ∙ ap ok (rw (parts, below-right q xs e ys sorted' below) (omega arith)))
        | inr not_below ↦
            rw (some_left, read, not_below, bound_loop)
              (bound_loop_lem fuel z q pre xs (e ∷ (ys ++ post)) first half
                  (place ∙ simp append_assoc) p at (omega arith) (IsSorted-left xs (e ∷ ys) sorted')
                ∙ ap ok (rw (parts, below-left q xs e ys not_below) refl))
      ]

  -- On a block sorted by its keys the binary search of `LowerBound` ends, reads no entry out of
  -- range, and returns the number of entries below the key.
  pub lower_bound-length :
      (z : ZipList (K × V)) (q : K)
      → IsSorted z.slots
      → lower_bound z q ≡ ok (length (cut q z.slots).below)
  unfolding lower_bound
  lower_bound-length z q sorted =
      bound_loop_lem (count z + 1) z q [] z.slots [] 0 (count z) (sym (append-nil z.slots)) refl
        refl (omega arith) sorted
      ∙ ap ok (omega arith)

  -- What is read at the place where the cut splits a block.
  found :
      (z : ZipList (K × V)) (q : K) (below : List (K × V)) (here : Option (K × V))
      (above : List (K × V))
      → lower_bound z q ≡ ok (length below)
      → z.slots ≡ below ++ entry here above
      → IsHit q here
      → All (After q) above
      → find_entry z q ≡ ok here
  unfolding find_entry
  found z q below none [] bound same hit after =
      let last : (length below == count z) ≡ true = rw (same, append-nil below) (ground arith) in
      rw (bound, last, find_entry, ◌>>=◌) refl
  found z q below none (a ∷ above) bound same hit after =
      let before : (length below == count z) ≡ false =
        rw (same, length-append below (a ∷ above)) (ground arith) in
      rw
        (
          bound,
          before,
          entry_at-middle z below a above (length below) same refl,
          after.0,
          find_entry,
          ◌>>=◌,
        )
        refl
  found z q below (some e) above bound same hit after =
      let before : (length below == count z) ≡ false =
        rw (same, length-append below (e ∷ above)) (ground arith) in
      rw
        (
          bound,
          before,
          entry_at-middle z below e above (length below) same refl,
          hit.0,
          hit.1,
          find_entry,
          ◌>>=◌,
        )
        refl

  pub find_entry-cut :
      (z : ZipList (K × V)) (q : K) → IsSorted z.slots → find_entry z q ≡ ok (cut q z.slots).here
  find_entry-cut z q sorted =
      found z q _ (cut q z.slots).here _ (lower_bound-length z q sorted) (sym (join-cut q z.slots))
        (here-IsHit q z.slots) (above-After q z.slots sorted)

  -- On a block sorted by its keys `FindValue` returns what the search of the list of its entries
  -- gives.
  pub find_value-find :
      (z : ZipList (K × V)) (q : K) → IsSorted z.slots → find_value z q ≡ ok (Assoc.find q z.slots)
  unfolding find_value
  find_value-find z q sorted =
      rw (find_entry-cut z q sorted, find-cut q z.slots)
        (elim (Option-cases (cut q z.slots).here) [
          | inl e ↦ rw (e, find_value) refl
          | inr (x, e) ↦ rw (e, find_value) refl
        ])
