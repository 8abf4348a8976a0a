-- ===== src/ZipList/Edit.antt =====
-- immutable_container/include/immutable_container/zip_list.h: lists that are constructed from entries,
-- and the copies of a list with a change in it.
use cpp_util.Util.{
  ℕ, zero, suc, ◌+◌, ◌≤◌, ◌<◌, ◌≡◌, ◌∙◌, refl, sym, ap, true, false, List, [], ◌∷◌, ◌++◌, ltb, leb,
  ◌==◌, length, length-append, take-length, drop-length, take, drop, append_assoc, append-nil,
  arith, lt→ltb, le→ltb,
}
use cpp_util.Container.Outcome.{ok, throw, Error}
use cpp_util.ZipList.{
  ZipList, count, new_list, full, construct_back, construct_all, copy_from, from_sorted_entries,
  erased, with_erased, updated, with_updated, with_inserted, can_merge, merged,
}

module _ {ℓ} {A : Type ℓ} where
  pub take_append-drop : (n : ℕ) (xs : List A) → take n xs ++ drop n xs ≡ xs
  take_append-drop zero xs = refl
  take_append-drop (suc n) [] = refl
  take_append-drop (suc n) (x ∷ xs) = ap (◌∷◌ x) (take_append-drop n xs)

abbrev pub filled {ℓ} : {E : Type ℓ} → List E → ZipList E
filled es = record { slots = es }

module _ {ℓ} (capacity : ℕ) {E : Type ℓ} where
  construct_back-room :
      (z : ZipList E) (e : E)
      → count z < capacity
      → construct_back capacity z e ≡ ok (filled (z.slots ++ e ∷ []))
  unfolding construct_back
  construct_back-room z e room = rw (lt→ltb (count z) capacity room, construct_back) refl

  pub construct_all-append :
      (z : ZipList E) (es : List E)
      → count z + length es ≤ capacity
      → construct_all capacity z es ≡ ok (filled (z.slots ++ es))
  unfolding construct_all
  construct_all-append z [] room = ap (λ xs. ok (filled xs)) (sym (append-nil z.slots))
  construct_all-append z (e ∷ es) room = rw (construct_back-room z e (omega arith)) (
      construct_all-append (filled (z.slots ++ e ∷ [])) es
        (rw (length-append z.slots (e ∷ [])) (omega arith))
      ∙ ap (λ xs. ok (filled xs)) (simp append_assoc))

  pub from_sorted_entries-filled :
      (es : List E) → length es ≤ capacity → from_sorted_entries capacity es ≡ ok (filled es)
  unfolding from_sorted_entries
  from_sorted_entries-filled es room =
      rw (le→ltb capacity (length es) room) (construct_all-append new_list es (omega arith))

  pub from_sorted_entries-exceeds :
      (es : List E)
      → capacity < length es
      → from_sorted_entries capacity es ≡ throw Error.exceeds_capacity
  unfolding from_sorted_entries
  from_sorted_entries-exceeds es h = rw (lt→ltb capacity (length es) h) refl

  pub copy_from-same : (z : ZipList E) → count z ≤ capacity → copy_from capacity z ≡ ok z
  unfolding copy_from
  copy_from-same z room = construct_all-append new_list z.slots (omega arith)

  erased-middle : (xs : List E) (e : E) (ys : List E) → erased (length xs) (xs ++ e ∷ ys) ≡ xs ++ ys
  unfolding erased
  erased-middle [] e ys = refl
  erased-middle (x ∷ xs) e ys = ap (◌∷◌ x) (erased-middle xs e ys)

  -- One entry is left out.
  pub with_erased-filled :
      (z : ZipList E) (i : ℕ) (xs : List E) (e : E) (ys : List E)
      → count z ≤ capacity
      → z.slots ≡ xs ++ e ∷ ys
      → length xs ≡ i
      → with_erased capacity z i ≡ ok (filled (xs ++ ys))
  unfolding with_erased
  with_erased-filled z i xs e ys room same at =
      let total = ap length same ∙ length-append xs (e ∷ ys) in
      let rest : erased i z.slots ≡ xs ++ ys = rw (same, ← at) (erased-middle xs e ys) in
      rw (lt→ltb i (count z) (omega arith), rest, with_erased)
        (construct_all-append new_list (xs ++ ys) (rw (length-append xs ys) (omega arith)))

  -- Two lists that fit one block.
  pub merged-filled :
      (a b : ZipList E)
      → can_merge capacity a b ≡ true
      → merged capacity a b ≡ ok (filled (a.slots ++ b.slots))
  unfolding merged can_merge
  merged-filled a b fits =
      let room : count a + count b ≤ capacity = ground arith in
      rw (fits, construct_all-append new_list a.slots (omega arith), merged)
        (construct_all-append (filled a.slots) b.slots room)

module _ {ℓ} (capacity : ℕ) {K V : Type ℓ} where
  pub updated-middle :
      (xs : List (K × V)) (e : K × V) (ys : List (K × V)) (w : V)
      → updated (length xs) w (xs ++ e ∷ ys) ≡ xs ++ (e.0, w) ∷ ys
  unfolding updated
  updated-middle [] e ys w = refl
  updated-middle (x ∷ xs) e ys w = ap (◌∷◌ x) (updated-middle xs e ys w)

  -- One value is replaced, with its key kept.
  pub with_updated-filled :
      (z : ZipList (K × V)) (i : ℕ) (w : V) (xs : List (K × V)) (e : K × V) (ys : List (K × V))
      → count z ≤ capacity
      → z.slots ≡ xs ++ e ∷ ys
      → length xs ≡ i
      → with_updated capacity z i w ≡ ok (filled (xs ++ (e.0, w) ∷ ys))
  unfolding with_updated
  with_updated-filled z i w xs e ys room same at =
      let total = ap length same ∙ length-append xs (e ∷ ys) in
      let changed : updated i w z.slots ≡ xs ++ (e.0, w) ∷ ys =
        rw (same, ← at) (updated-middle xs e ys w) in
      let inside : leb (count z) i ≡ false = ground arith in
      rw (inside, changed)
        (construct_all-append capacity new_list (xs ++ (e.0, w) ∷ ys)
          (rw (length-append xs ((e.0, w) ∷ ys)) (omega arith)))

  -- One entry more, at an index up to the count.
  pub with_inserted-filled :
      (z : ZipList (K × V)) (i : ℕ) (q : K) (w : V) (xs ys : List (K × V))
      → count z < capacity
      → z.slots ≡ xs ++ ys
      → length xs ≡ i
      → with_inserted capacity z i q w ≡ ok (filled (xs ++ (q, w) ∷ ys))
  unfolding with_inserted full
  with_inserted-filled z i q w xs ys room same at =
      let total = ap length same ∙ length-append xs ys in
      let not_full : (count z == capacity) ≡ false = ground arith in
      let inside : ltb (count z) i ≡ false = ground arith in
      let before : take i z.slots ≡ xs = rw (same, ← at) (take-length xs ys) in
      let behind : drop i z.slots ≡ ys = rw (same, ← at) (drop-length xs ys) in
      rw
        (
          not_full,
          inside,
          before,
          behind,
          construct_all-append capacity new_list xs (omega arith),
          construct_back-room capacity (filled xs) (q, w) (omega arith),
        )
        (construct_all-append capacity (filled (xs ++ (q, w) ∷ [])) ys
            (rw (length-append xs ((q, w) ∷ [])) (omega arith))
          ∙ ap (λ xs. ok (filled xs)) (simp append_assoc))
