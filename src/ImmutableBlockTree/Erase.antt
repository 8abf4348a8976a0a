-- ===== src/ImmutableBlockTree/Erase.antt =====
-- `EraseNode`, as an edit of the entries.
use mathlib.Core.Option
use cpp_util.Util.{
  ℕ, ◌*◌, ◌≤◌, ◌≡◌, refl, true, false, none, List, [], ◌∷◌, ◌++◌, arith, Bool-cases, inl, inr, ltb,
  ltb→lt, ◌∙◌, ap, sym, subst, length, length-append, append-nil,
}
use cpp_util.Container.Comparator.{Comparator}
use cpp_util.Container.Blocks.{Blocks}
use cpp_util.Container.Store.{u32_max, Refines, refused}
use cpp_util.Container.Outcome.{ok, ◌>>=◌}
use cpp_util.Container.Assoc.{IsSorted}
use cpp_util.Container.Assoc.Sorted.{IsSorted-left, IsSorted-right}
use cpp_util.Container.Assoc.Edit.{Fits, Fits-part, edit, edit-here, edit-nil, put_nothing}
use cpp_util.ImmutableBlockTree.{
  Tree, null, node, height, size, is_empty, rebuild, normalize_node, update_node, erase_node,
  erase_here,
}
use cpp_util.ImmutableBlockTree.Avl.{IsAvl, entries}
use cpp_util.ImmutableBlockTree.Normalize.{Gives, normalize_node-Gives, erase_min_first}
use cpp_util.ImmutableBlockTree.InBlock.{around}
use cpp_util.ImmutableBlockTree.Sides.{Where, Where-is, Held, held_cases}
use cpp_util.ImmutableBlockTree.Passed.{
  lift-before, lift-past, node_before, node_past, node_inside, returns,
}
use cpp_util.ImmutableBlockTree.Change.{edit_held}

module _ {ℓ} {K V : Type ℓ} ⦃c : Comparator K⦄ (S : Blocks K V) (q : K) where
  open S use {B}

  -- A block of one entry is taken out of the tree.
  erase_last :
      (b : B) (l r : Tree B)
      → IsAvl S l
      → IsAvl S r
      → length (around S l [] r) ≤ u32_max
      → Gives S
          (elim (is_empty l) [
            | true ↦ ok r
            | false ↦ elim (is_empty r) [
              | true ↦ ok l
              | false ↦ cpp_util.ImmutableBlockTree.find_min r >>= λ successor.
                  cpp_util.ImmutableBlockTree.erase_min S (3 * size r) r >>= λ new_right.
                  normalize_node S successor l new_right
            ]
          ])
          (around S l [] r)
  unfolding is_empty
  erase_last b null r al ar fits = (r, refl, ar, refl)
  erase_last b (node lb ll lr ls lh) null al ar fits =
      (node lb ll lr ls lh, refl, al, sym (append-nil (entries S (node lb ll lr ls lh))))
  erase_last b (node lb ll lr ls lh) (node rb rl rr rs rh) al ar fits =
      let l = node lb ll lr ls lh in
      let (m, r', found, made, km, ar', content, sized) = erase_min_first S rb rl rr rs rh ar in
      let whole = ap (λ (zs : List (K × V)). entries S l ++ zs) content in
      let (t, made', at, content') =
        normalize_node-Gives S m l r' km al ar'
          (subst (λ (zs : List (K × V)). length zs ≤ u32_max) (sym whole) fits) in
      (t, rw (found, made) made', at, content' ∙ whole)

  only_one :
      (xs : List (K × V)) (e : K × V) (ys : List (K × V))
      → length (xs ++ e ∷ ys) ≤ 1
      → xs ++ ys ≡ []
  only_one [] e [] h = refl
  only_one [] e (y ∷ ys) h = absurd (omega arith)
  only_one (x ∷ xs) e ys h = absurd (omega (arith, length-append xs (e ∷ ys)))

  erase_here-Gives :
      (b : B) (l r : Tree B) (index : ℕ) (xs : List (K × V)) (e : K × V) (ys : List (K × V))
      → S.IsBlock b
      → IsAvl S l
      → IsAvl S r
      → S.view b ≡ xs ++ e ∷ ys
      → length xs ≡ index
      → length (around S l (xs ++ ys) r) ≤ u32_max
      → Gives S (erase_here S b l r index) (around S l (xs ++ ys) r)
  unfolding erase_here
  erase_here-Gives b l r index xs e ys kb al ar view at fits =
      elim (Bool-cases (ltb 1 (S.count b))) [
        | inl many ↦
            let (b', made, kb', view') =
              S.erased_view b index xs e ys kb (ltb→lt 1 (S.count b) many) view at in
            let whole = ap (λ (zs : List (K × V)). around S l zs r) view' in
            let (t, made', avl, content) =
              normalize_node-Gives S b' l r kb' al ar
                (subst (λ (zs : List (K × V)). length zs ≤ u32_max) (sym whole) fits) in
            (t, rw (many, made, erase_here) made', avl, content ∙ whole)
        | inr one ↦
            let nothing =
              only_one xs e ys
                (omega (arith, ap length view, S.count_view b, few (S.count b) one)) in
            rw (one, erase_here, nothing)
              (erase_last b l r al ar
                (subst (λ (zs : List (K × V)). length (around S l zs r) ≤ u32_max) nothing fits))
      ]
    where
      few : (n : ℕ) → ltb 1 n ≡ false → n ≤ 1
      few n e = ground arith

  pub erase_node-Edits :
      (t : Tree B)
      → IsAvl S t
      → IsSorted (entries S t)
      → Fits (edit put_nothing q (entries S t))
      → Refines (IsAvl S) (entries S) (erase_node S t q) (edit put_nothing q (entries S t))
  unfolding erase_node
  erase_node-Edits null a sorted fits = rw (edit-nil put_nothing q none refl) refused
  erase_node-Edits (node b l r s h) (al, ar, es, eh, dl, dr, room, kb) sorted fits =
      let sorted_b = IsSorted-right (entries S l) (S.view b ++ entries S r) sorted in
      elim (Where-is S b q (entries S l) (entries S r) kb sorted) [
        | Where.is_left at beyond ↦
            let part = node_before S put_nothing q b l r beyond in
            let fits' = subst Fits part fits in
            rw (at, part, erase_node)
              (lift-before S b r kb ar fits' (
                erase_node-Edits l al (IsSorted-left (entries S l) _ sorted) (
                  Fits-part _ (λ es. omega (arith, length-append es (S.view b ++ entries S r))) _
                    fits')))
        | Where.is_right at beyond ↦
            let part = node_past S put_nothing q b l r beyond in
            let fits' = subst Fits part fits in
            rw (at, part, erase_node)
              (lift-past S b l kb al fits' (
                erase_node-Edits r ar (IsSorted-right (S.view b) _ sorted_b) (
                  Fits-part _ (λ es. omega (arith, length-append (entries S l ++ S.view b) es)) _
                    fits')))
        | Where.is_inside at below above ↦
            elim (held_cases S b q (IsSorted-left (S.view b) _ sorted_b)) [
              | Held.missing here view holds ↦
                  rw
                    (
                      at,
                      holds,
                      erase_node,
                      node_inside S put_nothing q b l r below above
                          ∙ ap (Option.map (λ zs. around S l zs r))
                              (edit-here put_nothing q (S.view b) none none here refl),
                    )
                    refused
              | Held.held {e = e} here view holds ↦
                  let changed = edit_held S q put_nothing b l r e [] refl here below above in
                  let bound = S.lower_bound_view b q (IsSorted-left (S.view b) _ sorted_b) in
                  rw (at, holds, erase_node)
                    (returns S _ changed (
                      erase_here-Gives b l r (S.lower_bound b q) _ e _ kb al ar view (sym bound)
                        (fits _ changed)))
            ]
      ]
