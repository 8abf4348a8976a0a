-- ===== src/ImmutableBlockTree/Set.antt =====
-- `SetNode`, as an edit of the entries that is never refused.
use mathlib.Core.Option
use mathlib.Core.Option.{some-injective}
use cpp_util.Util.{
  ◌+◌, ◌≤◌, ◌≡◌, refl, true, false, some, List, ◌++◌, arith, ◌∙◌, ap, sym, subst, length,
  length-append, All, append_assoc,
}
use cpp_util.Container.Comparator.{Comparator}
use cpp_util.Container.Blocks.{Blocks}
use cpp_util.Container.Store.{u32_max}
use cpp_util.Container.Outcome.{Outcome, ◌>>=◌}
use cpp_util.Container.Assoc.{IsSorted, After, Before}
use cpp_util.Container.Assoc.Sorted.{IsSorted-left, IsSorted-right}
use cpp_util.Container.Assoc.Edit.{Fits, Fits-part, edit, edit-nil, put_either}
use cpp_util.ImmutableBlockTree.{
  Tree, null, node, height, is_empty, normalize_node, insert_in_block, set_node,
}
use cpp_util.ImmutableBlockTree.Avl.{IsAvl, entries}
use cpp_util.ImmutableBlockTree.Normalize.{Gives, normalize_node-Gives}
use cpp_util.ImmutableBlockTree.InBlock.{around, update_in_block-Gives, single_node-Gives}
use cpp_util.ImmutableBlockTree.Sides.{Where, Where-is, Held, held_cases}
use cpp_util.ImmutableBlockTree.Passed.{node_before, node_past}
use cpp_util.ImmutableBlockTree.Insert.{
  edit_front, edit_back, edit_missing, insert_front, insert_back, insert_missing,
}
use cpp_util.ImmutableBlockTree.Change.{edit_held}

module _ {ℓ} {K V : Type ℓ} ⦃c : Comparator K⦄ (S : Blocks K V) (q : K) (w : V) where
  open S use {B}

  -- The call returns a tree of the edited entries.
  abbrev Sets : Outcome (Tree B) → List (K × V) → Type ℓ
  Sets m es = (zs : List (K × V)) × (edit (put_either q w) q es ≡ some zs) × Gives S m zs

  set_before :
      (b : B) (l r : Tree B) {m : Outcome (Tree B)}
      → S.IsBlock b
      → IsAvl S r
      → All (After q) (S.view b ++ entries S r)
      → Fits (edit (put_either q w) q (around S l (S.view b) r))
      → Sets m (entries S l)
      → Sets (m >>= λ n. normalize_node S b n r) (around S l (S.view b) r)
  set_before b l r kb ar beyond fits (zs, e, (t, made, at, same)) =
      let changed =
        node_before S (put_either q w) q b l r beyond
        ∙ ap (Option.map (λ ys. ys ++ (S.view b ++ entries S r))) e in
      let whole = ap (λ (ys : List (K × V)). ys ++ (S.view b ++ entries S r)) same in
      let (t', made', at', content) =
        normalize_node-Gives S b t r kb at ar
          (subst (λ (ys : List (K × V)). length ys ≤ u32_max) (sym whole) (fits _ changed)) in
      (_, changed, (t', rw made made', at', content ∙ whole))

  set_past :
      (b : B) (l r : Tree B) {m : Outcome (Tree B)}
      → S.IsBlock b
      → IsAvl S l
      → All (Before q) (entries S l ++ S.view b)
      → Fits (edit (put_either q w) q (around S l (S.view b) r))
      → Sets m (entries S r)
      → Sets (m >>= λ n. normalize_node S b l n) (around S l (S.view b) r)
  set_past b l r kb al beyond fits (zs, e, (t, made, at, same)) =
      let changed =
        node_past S (put_either q w) q b l r beyond
        ∙ ap (Option.map (λ ys. (entries S l ++ S.view b) ++ ys)) e in
      let whole =
        sym (append_assoc (entries S l) (S.view b) (entries S t))
        ∙ ap (λ (ys : List (K × V)). (entries S l ++ S.view b) ++ ys) same in
      let (t', made', at', content) =
        normalize_node-Gives S b l t kb al at
          (subst (λ (ys : List (K × V)). length ys ≤ u32_max) (sym whole) (fits _ changed)) in
      (_, changed, (t', rw made made', at', content ∙ whole))

  set_left :
      (b : B) (l r : Tree B)
      → S.IsBlock b
      → IsAvl S r
      → height r ≤ height l + 1
      → All (After q) (S.view b ++ entries S r)
      → Fits (edit (put_either q w) q (around S l (S.view b) r))
      → (Fits (edit (put_either q w) q (entries S l)) → Sets (set_node S l q w) (entries S l))
      → Sets
          (elim (is_empty l) [
            | true ↦ insert_in_block S b l r 0 q w
            | false ↦ set_node S l q w >>= λ new_left. normalize_node S b new_left r
          ])
          (around S l (S.view b) r)
  unfolding is_empty
  set_left b null r kb ar dr beyond fits rest = (
    _,
    edit_front S q w (put_either q w) refl b r beyond,
    insert_front S q w (put_either q w) refl b r kb ar dr beyond fits,
  )
  set_left b (node lb ll lr ls lh) r kb ar dr beyond fits rest =
      let l = node lb ll lr ls lh in
      set_before b l r kb ar beyond fits (
        rest (
          Fits-part _ (λ es. omega (arith, length-append es (S.view b ++ entries S r))) _
            (subst Fits (node_before S (put_either q w) q b l r beyond) fits)))

  set_right :
      (b : B) (l r : Tree B)
      → S.IsBlock b
      → IsAvl S l
      → height l ≤ height r + 1
      → All (Before q) (entries S l ++ S.view b)
      → Fits (edit (put_either q w) q (around S l (S.view b) r))
      → (Fits (edit (put_either q w) q (entries S r)) → Sets (set_node S r q w) (entries S r))
      → Sets
          (elim (is_empty r) [
            | true ↦ insert_in_block S b l r (S.count b) q w
            | false ↦ set_node S r q w >>= λ new_right. normalize_node S b l new_right
          ])
          (around S l (S.view b) r)
  unfolding is_empty
  set_right b l null kb al dl beyond fits rest = (
    _,
    edit_back S q w (put_either q w) refl b l beyond,
    insert_back S q w (put_either q w) refl b l kb al dl beyond fits,
  )
  set_right b l (node rb rl rr rs rh) kb al dl beyond fits rest =
      let r = node rb rl rr rs rh in
      set_past b l r kb al beyond fits (
        rest (
          Fits-part _ (λ es. omega (arith, length-append (entries S l ++ S.view b) es)) _
            (subst Fits (node_past S (put_either q w) q b l r beyond) fits)))

  pub set_node-Sets :
      (t : Tree B)
      → IsAvl S t
      → IsSorted (entries S t)
      → Fits (edit (put_either q w) q (entries S t))
      → Sets (set_node S t q w) (entries S t)
  unfolding set_node
  set_node-Sets null a sorted fits =
      (_, edit-nil (put_either q w) q _ refl, single_node-Gives S q w)
  set_node-Sets (node b l r s h) (al, ar, es, eh, dl, dr, room, kb) sorted fits =
      let sorted_b = IsSorted-right (entries S l) (S.view b ++ entries S r) sorted in
      let sorted_v = IsSorted-left (S.view b) _ sorted_b in
      elim (Where-is S b q (entries S l) (entries S r) kb sorted) [
        | Where.is_left at beyond ↦
            rw (at, set_node)
              (set_left b l r kb ar dr beyond fits
                (λ f. set_node-Sets l al (IsSorted-left (entries S l) _ sorted) f))
        | Where.is_right at beyond ↦
            rw (at, set_node)
              (set_right b l r kb al dl beyond fits
                (λ f. set_node-Sets r ar (IsSorted-right (S.view b) _ sorted_b) f))
        | Where.is_inside at below above ↦ elim (held_cases S b q sorted_v) [
          | Held.held {e = e} here view holds ↦
              let changed = edit_held S q (put_either q w) b l r e _ refl here below above in
              rw (at, holds, set_node)
                (
                  _,
                  changed,
                  update_in_block-Gives S b l r (S.lower_bound b q) w _ e _ kb al ar dl dr view
                      (sym (S.lower_bound_view b q sorted_v)) (fits _ changed),
                )
          | Held.missing here view holds ↦
              rw (at, holds, set_node)
                (
                  _,
                  edit_missing S q w (put_either q w) refl b l r here below above,
                  insert_missing S q w (put_either q w) refl b l r kb al ar dl dr sorted_v here view
                      below above fits,
                )
        ]
      ]
