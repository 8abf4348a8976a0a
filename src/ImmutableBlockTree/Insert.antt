-- ===== src/ImmutableBlockTree/Insert.antt =====
-- `InsertNode`, as an edit of the entries.
use mathlib.Core.Option
use cpp_util.Util.{
  ◌+◌, ◌≤◌, ◌≡◌, refl, true, false, Option, none, some, List, [], ◌∷◌, ◌++◌, arith, ◌∙◌, ap, sym,
  subst, length-append, All, append_assoc, append-nil,
}
use cpp_util.Container.Comparator.{Comparator}
use cpp_util.Container.Blocks.{Blocks}
use cpp_util.Container.Store.{Refines, refused}
use cpp_util.Container.Outcome.{Outcome, ok, ◌>>=◌}
use cpp_util.Container.Assoc.{IsSorted, After, Before, cut}
use cpp_util.Container.Assoc.Sorted.{IsSorted-left, IsSorted-right}
use cpp_util.Container.Assoc.Edit.{Fits, Fits-part, edit, edit-here, edit-nil, put_entry}
use cpp_util.ImmutableTree.{lift}
use cpp_util.ImmutableBlockTree.{
  Tree, null, node, height, is_empty, normalize_node, insert_in_block, insert_node,
}
use cpp_util.ImmutableBlockTree.Avl.{IsAvl, entries}
use cpp_util.ImmutableBlockTree.Normalize.{Gives}
use cpp_util.ImmutableBlockTree.InBlock.{around, insert_in_block-Gives, single_node-Gives}
use cpp_util.ImmutableBlockTree.Sides.{Where, Where-is, Held, held_cases}
use cpp_util.ImmutableBlockTree.Passed.{
  lift-before, lift-past, node_before, node_past, node_inside, returns,
}

module _ {ℓ} {K V : Type ℓ} ⦃c : Comparator K⦄ (S : Blocks K V) (q : K) (w : V) where
  open S use {B}

  -- An edit that puts an entry where none is.
  module _ (f : Option (K × V) → Option (List (K × V))) (puts : f none ≡ some ((q, w) ∷ []))
      (b : B) where
    -- At the front of a block that has nothing to its left, and at the back of one that has nothing
    -- to its right.
    pub edit_front :
        (r : Tree B)
        → All (After q) (S.view b ++ entries S r)
        → edit f q (around S null (S.view b) r) ≡ some (around S null ((q, w) ∷ S.view b) r)
    edit_front r beyond =
        node_before S f q b null r beyond
        ∙ ap (Option.map (λ zs. zs ++ (S.view b ++ entries S r))) (edit-nil f q _ puts)

    pub edit_back :
        (l : Tree B)
        → All (Before q) (entries S l ++ S.view b)
        → edit f q (around S l (S.view b) null) ≡ some (around S l (S.view b ++ (q, w) ∷ []) null)
    edit_back l beyond =
        node_past S f q b l null beyond
        ∙ ap (Option.map (λ zs. (entries S l ++ S.view b) ++ zs)) (edit-nil f q _ puts)
        ∙ ap some (whole (entries S l) (S.view b))
      where
        whole :
            (xs ys : List (K × V)) → (xs ++ ys) ++ ((q, w) ∷ []) ≡ xs ++ ((ys ++ (q, w) ∷ []) ++ [])
        whole xs ys = simp (append_assoc, append-nil)

    -- Within a block that holds no such key.
    pub edit_missing :
        (l r : Tree B)
        → (cut q (S.view b)).here ≡ none
        → All (Before q) (entries S l)
        → All (After q) (entries S r)
        → edit f q (around S l (S.view b) r)
          ≡ some (around S l ((cut q (S.view b)).below ++ (q, w) ∷ (cut q (S.view b)).above) r)
    edit_missing l r here below above =
        node_inside S f q b l r below above
        ∙ ap (Option.map (λ zs. around S l zs r)) (edit-here f q (S.view b) none _ here puts)

    pub insert_front :
        (r : Tree B)
        → S.IsBlock b
        → IsAvl S r
        → height r ≤ 1
        → All (After q) (S.view b ++ entries S r)
        → Fits (edit f q (around S null (S.view b) r))
        → Gives S (insert_in_block S b null r 0 q w) (around S null ((q, w) ∷ S.view b) r)
    insert_front r kb ar low beyond fits =
        insert_in_block-Gives S b null r 0 q w [] (S.view b) kb tt ar (omega arith) (omega arith)
          refl refl (fits _ (edit_front r beyond))

    pub insert_back :
        (l : Tree B)
        → S.IsBlock b
        → IsAvl S l
        → height l ≤ 1
        → All (Before q) (entries S l ++ S.view b)
        → Fits (edit f q (around S l (S.view b) null))
        → Gives S
            (insert_in_block S b l null (S.count b) q w)
            (around S l (S.view b ++ (q, w) ∷ []) null)
    insert_back l kb al low beyond fits =
        insert_in_block-Gives S b l null (S.count b) q w (S.view b) [] kb al tt (omega arith)
          (omega arith) (sym (append-nil (S.view b))) (sym (S.count_view b))
          (fits _ (edit_back l beyond))

    pub insert_missing :
        (l r : Tree B)
        → S.IsBlock b
        → IsAvl S l
        → IsAvl S r
        → height l ≤ height r + 1
        → height r ≤ height l + 1
        → IsSorted (S.view b)
        → (cut q (S.view b)).here ≡ none
        → S.view b ≡ (cut q (S.view b)).below ++ (cut q (S.view b)).above
        → All (Before q) (entries S l)
        → All (After q) (entries S r)
        → Fits (edit f q (around S l (S.view b) r))
        → Gives S
            (insert_in_block S b l r (S.lower_bound b q) q w)
            (around S l ((cut q (S.view b)).below ++ (q, w) ∷ (cut q (S.view b)).above) r)
    insert_missing l r kb al ar dl dr sorted here view below above fits =
        insert_in_block-Gives S b l r (S.lower_bound b q) q w _ _ kb al ar dl dr view
          (sym (S.lower_bound_view b q sorted)) (fits _ (edit_missing l r here below above))

  abbrev Edits : Outcome (Option (Tree B)) → List (K × V) → Type ℓ
  Edits m es = Refines (IsAvl S) (entries S) m (edit (put_entry q w) q es)

  insert_left :
      (b : B) (l r : Tree B)
      → S.IsBlock b
      → IsAvl S l
      → IsAvl S r
      → height r ≤ height l + 1
      → All (After q) (S.view b ++ entries S r)
      → Fits (edit (put_entry q w) q (around S l (S.view b) r))
      → (Fits (edit (put_entry q w) q (entries S l)) → Edits (insert_node S l q w) (entries S l))
      → Edits
          (elim (is_empty l) [
            | true ↦ insert_in_block S b l r 0 q w >>= λ n. ok (some n)
            | false ↦ lift (λ new_left. normalize_node S b new_left r) (insert_node S l q w)
          ])
          (around S l (S.view b) r)
  unfolding is_empty
  insert_left b null r kb al ar dr beyond fits rest =
      returns S _ (edit_front (put_entry q w) refl b r beyond)
        (insert_front (put_entry q w) refl b r kb ar dr beyond fits)
  insert_left b (node lb ll lr ls lh) r kb al ar dr beyond fits rest =
      let l = node lb ll lr ls lh in
      let part = node_before S (put_entry q w) q b l r beyond in
      let fits' = subst Fits part fits in
      subst
        (Refines (IsAvl S) (entries S) (lift (λ n. normalize_node S b n r) (insert_node S l q w)))
        (sym part)
        (lift-before S b r kb ar fits' (
          rest (
            Fits-part _ (λ es. omega (arith, length-append es (S.view b ++ entries S r))) _ fits')))

  insert_right :
      (b : B) (l r : Tree B)
      → S.IsBlock b
      → IsAvl S l
      → IsAvl S r
      → height l ≤ height r + 1
      → All (Before q) (entries S l ++ S.view b)
      → Fits (edit (put_entry q w) q (around S l (S.view b) r))
      → (Fits (edit (put_entry q w) q (entries S r)) → Edits (insert_node S r q w) (entries S r))
      → Edits
          (elim (is_empty r) [
            | true ↦ insert_in_block S b l r (S.count b) q w >>= λ n. ok (some n)
            | false ↦ lift (λ new_right. normalize_node S b l new_right) (insert_node S r q w)
          ])
          (around S l (S.view b) r)
  unfolding is_empty
  insert_right b l null kb al ar dl beyond fits rest =
      returns S _ (edit_back (put_entry q w) refl b l beyond)
        (insert_back (put_entry q w) refl b l kb al dl beyond fits)
  insert_right b l (node rb rl rr rs rh) kb al ar dl beyond fits rest =
      let r = node rb rl rr rs rh in
      let part = node_past S (put_entry q w) q b l r beyond in
      let fits' = subst Fits part fits in
      subst
        (Refines (IsAvl S) (entries S) (lift (λ n. normalize_node S b l n) (insert_node S r q w)))
        (sym part)
        (lift-past S b l kb al fits' (
          rest (
            Fits-part _ (λ es. omega (arith, length-append (entries S l ++ S.view b) es)) _ fits')))

  pub insert_node-Edits :
      (t : Tree B)
      → IsAvl S t
      → IsSorted (entries S t)
      → Fits (edit (put_entry q w) q (entries S t))
      → Edits (insert_node S t q w) (entries S t)
  unfolding insert_node
  insert_node-Edits null a sorted fits =
      returns S _ (edit-nil (put_entry q w) q _ refl) (single_node-Gives S q w)
  insert_node-Edits (node b l r s h) (al, ar, es, eh, dl, dr, room, kb) sorted fits =
      let sorted_b = IsSorted-right (entries S l) (S.view b ++ entries S r) sorted in
      elim (Where-is S b q (entries S l) (entries S r) kb sorted) [
        | Where.is_left at beyond ↦
            rw (at, insert_node)
              (insert_left b l r kb al ar dr beyond fits
                (λ f. insert_node-Edits l al (IsSorted-left (entries S l) _ sorted) f))
        | Where.is_right at beyond ↦
            rw (at, insert_node)
              (insert_right b l r kb al ar dl beyond fits
                (λ f. insert_node-Edits r ar (IsSorted-right (S.view b) _ sorted_b) f))
        | Where.is_inside at below above ↦
            elim (held_cases S b q (IsSorted-left (S.view b) _ sorted_b)) [
              | Held.held {e = e} here view holds ↦
                  rw
                    (
                      at,
                      holds,
                      insert_node,
                      node_inside S (put_entry q w) q b l r below above
                          ∙ ap (Option.map (λ zs. around S l zs r))
                              (edit-here (put_entry q w) q (S.view b) (some e) none here refl),
                    )
                    refused
              | Held.missing here view holds ↦
                  rw (at, holds, insert_node)
                    (returns S _ (edit_missing (put_entry q w) refl b l r here below above) (
                      insert_missing (put_entry q w) refl b l r kb al ar dl dr
                        (IsSorted-left (S.view b) _ sorted_b) here view below above fits))
            ]
      ]
