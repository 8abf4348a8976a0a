-- ===== src/ImmutableBlockTree/Read.antt =====
-- `Find`, `Contains`, `ForEach`, `ForEachUntil`: what a caller reads from a tree of blocks.
use mathlib.Core.List.{foldl, foldl-append}
use cpp_util.Util.{
  ℕ, zero, suc, ◌+◌, ◌≡◌, refl, Bool, true, false, List, [], ◌∷◌, ◌++◌, arith, inl, inr, Bool-cases,
  ◌∙◌, ap, sym, length, length-append, All, append_assoc,
}
use cpp_util.Container.Comparator.{Comparator}
use cpp_util.Container.Blocks.{Blocks}
use cpp_util.Container.Outcome.{Outcome, ok, ◌>>=◌}
use cpp_util.Container.Visit.{visit_until, continue, visit_until-append}
use cpp_util.Container.Assoc
use cpp_util.Container.Assoc.{Cut, IsSorted, After, Before, cut}
use cpp_util.Container.Assoc.Cutting.{cut-right, cut-nil}
use cpp_util.Container.Assoc.Edit.{cut-before}
use cpp_util.Container.Assoc.Sorted.{IsSorted-left, IsSorted-right}
use cpp_util.Container.Assoc.Laws.{find_same, find-cut, value}
use cpp_util.ImmutableBlockTree.{
  Tree, null, node, find, for_each_in_block, for_each, for_each_in_block_until, for_each_until,
  to_vector,
}
use cpp_util.ImmutableBlockTree.Avl.{IsAvl, entries, to_vector-entries}
use cpp_util.ImmutableBlockTree.Sides.{Where, Where-is}

module _ {ℓ} {K V : Type ℓ} ⦃c : Comparator K⦄ (S : Blocks K V) where
  open S use {B}

  find_before :
      (q : K) (xs ys : List (K × V)) → All (After q) ys → Assoc.find q xs ≡ Assoc.find q (xs ++ ys)
  find_before q xs ys h =
      find_same q _ _ (ap (λ (p : Cut (K × V)). p.here) (sym (cut-before q xs ys h)))

  find_past :
      (q : K) (xs ys : List (K × V)) → All (Before q) xs → Assoc.find q ys ≡ Assoc.find q (xs ++ ys)
  find_past q xs ys h =
      find_same q _ _ (ap (λ (p : Cut (K × V)). p.here) (sym (cut-right q xs ys h)))

  -- On a balanced sorted tree of blocks `Find`, which walks by the first and the last key of each
  -- block, returns what the search of the sorted list of entries gives.
  pub find_lem_blocks :
      (t : Tree B) (q : K)
      → IsAvl S t
      → IsSorted (entries S t)
      → find S t q ≡ ok (Assoc.find q (entries S t))
  unfolding find
  find_lem_blocks null q a sorted =
      ap ok (sym (find-cut q [] ∙ ap (λ (p : Cut (K × V)). value p.here) (cut-nil q)))
  find_lem_blocks (node b l r s h) q (al, ar, es, eh, dl, dr, room, kb) sorted =
      let sorted_b = IsSorted-right (entries S l) (S.view b ++ entries S r) sorted in
      elim (Where-is S b q (entries S l) (entries S r) kb sorted) [
        | Where.is_left at beyond ↦
            rw (at, find)
              (find_lem_blocks l q al (IsSorted-left (entries S l) _ sorted)
                ∙ ap ok (find_before q (entries S l) (S.view b ++ entries S r) beyond))
        | Where.is_right at beyond ↦
            rw (at, find)
              (find_lem_blocks r q ar (IsSorted-right (S.view b) _ sorted_b)
                ∙ ap ok (
                    find_past q (entries S l ++ S.view b) (entries S r) beyond
                    ∙ ap (Assoc.find q) (append_assoc (entries S l) (S.view b) (entries S r))))
        | Where.is_inside at below above ↦
            rw (at, find)
              (S.find_value_view b q (IsSorted-left (S.view b) _ sorted_b)
                ∙ ap ok (
                    find_before q (S.view b) (entries S r) above
                    ∙ find_past q (entries S l) (S.view b ++ entries S r) below))
      ]

module _ {ℓ μ} {K V : Type ℓ} ⦃c : Comparator K⦄ (S : Blocks K V) {A : Type μ} where
  open S use {B}

  module _ (f : A → K → V → A) where
    abbrev call : A → K × V → A
    call st e = f st e.0 e.1

    for_each_in_block-view :
        (b : B) (rest i : ℕ) (xs ys : List (K × V)) (st : A)
        → S.view b ≡ xs ++ ys
        → length xs ≡ i
        → length ys ≡ rest
        → for_each_in_block S f b rest i st ≡ ok (foldl call st ys)
    unfolding for_each_in_block
    for_each_in_block-view b zero i xs [] st view at left = refl
    for_each_in_block-view b zero i xs (y ∷ ys) st view at left = absurd (omega arith)
    for_each_in_block-view b (suc rest) i xs [] st view at left = absurd (omega arith)
    for_each_in_block-view b (suc rest) i xs (y ∷ ys) st view at left =
        rw
          (
            S.key_at_view b i xs y ys view at,
            S.value_at_view b i xs y ys view at,
            for_each_in_block,
          )
          (for_each_in_block-view b rest (i + 1) (xs ++ y ∷ []) ys (f st y.0 y.1)
            (view ∙ sym (append_assoc xs (y ∷ []) ys)) (omega (arith, length-append xs (y ∷ [])))
            (omega arith))

    for_each-entries_blocks :
        (t : Tree B) (st : A) → for_each S f t st ≡ ok (foldl call st (entries S t))
    unfolding for_each
    for_each-entries_blocks null st = refl
    for_each-entries_blocks (node b l r s h) st =
        rw
          (
            for_each-entries_blocks l st,
            for_each_in_block-view b (S.count b) 0 [] (S.view b) (foldl call st (entries S l)) refl
                refl (sym (S.count_view b)),
            for_each,
          )
          (for_each-entries_blocks r _
            ∙ ap ok (
                sym (
                  foldl-append call st (entries S l) (S.view b ++ entries S r)
                  ∙ foldl-append call _ (S.view b) (entries S r))))

    pub for_each-to_vector_blocks :
        (t : Tree B) (st : A) → for_each S f t st ≡ ok (foldl call st (to_vector S t))
    for_each-to_vector_blocks t st = rw to_vector-entries (for_each-entries_blocks t st)

  module _ (f : A → K → V → A × Bool) where
    abbrev ask : A → K × V → A × Bool
    ask st e = f st e.0 e.1

    for_each_in_block_until-view :
        (b : B) (rest i : ℕ) (xs ys : List (K × V)) (st : A)
        → S.view b ≡ xs ++ ys
        → length xs ≡ i
        → length ys ≡ rest
        → for_each_in_block_until S f b rest i st ≡ ok (visit_until ask ys st)
    unfolding for_each_in_block_until visit_until
    for_each_in_block_until-view b zero i xs [] st view at left = refl
    for_each_in_block_until-view b zero i xs (y ∷ ys) st view at left = absurd (omega arith)
    for_each_in_block_until-view b (suc rest) i xs [] st view at left = absurd (omega arith)
    for_each_in_block_until-view b (suc rest) i xs (y ∷ ys) st view at left =
        elim (Bool-cases (f st y.0 y.1).1) [
          | inr stop ↦
              rw
                (
                  S.key_at_view b i xs y ys view at,
                  S.value_at_view b i xs y ys view at,
                  stop,
                  for_each_in_block_until,
                  visit_until,
                )
                refl
          | inl on ↦
              rw
                (
                  S.key_at_view b i xs y ys view at,
                  S.value_at_view b i xs y ys view at,
                  on,
                  for_each_in_block_until,
                  visit_until,
                )
                (for_each_in_block_until-view b rest (i + 1) (xs ++ y ∷ []) ys (f st y.0 y.1).0
                  (view ∙ sym (append_assoc xs (y ∷ []) ys))
                  (omega (arith, length-append xs (y ∷ []))) (omega arith))
        ]

    -- What follows a walk of the entries of a subtree, or of a block.
    and_then :
        (m : A × Bool) (g : A → Outcome (A × Bool)) (k : A → A × Bool)
        → ((st : A) → g st ≡ ok (k st))
        → (elim m.1 [ false ↦ ok (m.0, false) | true ↦ g m.0 ]) ≡ ok (continue m k)
    and_then (st, true) g k h = h st
    and_then (st, false) g k h = refl

    after_left :
        (b : B) (r : Tree B)
        → ((st : A) → for_each_until S f r st ≡ ok (visit_until ask (entries S r) st))
        → (st : A)
        → (for_each_in_block_until S f b (S.count b) 0 st >>= λ m. elim m.1 [
          | false ↦ ok (m.0, false)
          | true ↦ for_each_until S f r m.0
        ])
          ≡ ok (visit_until ask (S.view b ++ entries S r) st)
    after_left b r walk st =
        rw
          (
            for_each_in_block_until-view b (S.count b) 0 [] (S.view b) st refl refl
                (sym (S.count_view b)),
            visit_until-append ask (S.view b) (entries S r) st,
          )
          (and_then (visit_until ask (S.view b) st) (for_each_until S f r)
            (visit_until ask (entries S r)) walk)

    for_each_until-entries_blocks :
        (t : Tree B) (st : A) → for_each_until S f t st ≡ ok (visit_until ask (entries S t) st)
    unfolding for_each_until visit_until
    for_each_until-entries_blocks null st = refl
    for_each_until-entries_blocks (node b l r s h) st =
        rw
          (
            for_each_until-entries_blocks l st,
            visit_until-append ask (entries S l) (S.view b ++ entries S r) st,
            for_each_until,
          )
          (and_then (visit_until ask (entries S l) st) _ (visit_until ask (S.view b ++ entries S r))
            (after_left b r (λ s2. for_each_until-entries_blocks r s2)))

    -- `ForEachUntil` reads no block out of its range; it calls back for the entries of `ToVector`
    -- in their order, stops at the first call that returns false, and reports whether none did.
    pub for_each_until-to_vector_blocks :
        (t : Tree B) (st : A) → for_each_until S f t st ≡ ok (visit_until ask (to_vector S t) st)
    for_each_until-to_vector_blocks t st = rw to_vector-entries (for_each_until-entries_blocks t st)
