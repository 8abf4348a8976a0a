-- ===== src/ImmutableTree/Insert.antt =====
-- `InsertNode`, `UpdateNode` and `SetNode`: each changes the entries at its key, or refuses.
use cpp_util.Util.{◌≡◌, refl, [], ◌∷◌, none, some, arith, sym, ◌∙◌, Bool-cases, inl, inr}
use cpp_util.Container.Comparator.{Comparator}
use cpp_util.Container.Outcome.{ok}
use cpp_util.Container.Assoc.{IsSorted, cut}
use cpp_util.Container.Assoc.Cutting.{cut-nil}
use cpp_util.ImmutableTree.{Tree, null, node, insert_node}
use cpp_util.ImmutableTree.Avl.{IsAvl, entries}
use cpp_util.ImmutableTree.Rotate.{joined, make_node_lem}
use cpp_util.ImmutableTree.Change.{
  Fits, IsSorted-l, IsSorted-r, Fits-l, Fits-r, here_l, here_r, cut_here, Changes, Changes-l,
  Changes-r, made-IsChange,
}

module _ {ℓ κ} {K : Type ℓ} {V : Type κ} ⦃c : Comparator K⦄ where
  pub insert_absent :
      (t : Tree K V) (q : K) (w : V)
      → IsAvl t
      → IsSorted (entries t)
      → Fits q t ((q, w) ∷ [])
      → (cut q (entries t)).here ≡ none
      → Changes q t ((q, w) ∷ []) (insert_node t q w)
  unfolding insert_node
  insert_absent null q w avl sorted fits absent = (
    joined q w null null,
    rw (make_node_lem q w null null (omega arith) (omega arith) (omega arith)) refl,
    made-IsChange q w,
  )
  insert_absent (node k v l r s h) q w avl sorted fits absent = elim (Bool-cases (c.less q k)) [
    | inl p ↦
        rw (p, insert_node)
          (Changes-l q k v l r s h avl sorted ((q, w) ∷ []) fits _ p (
            insert_absent l q w avl.0 (IsSorted-l q k v l r s h avl sorted)
              (Fits-l q k v l r s h avl sorted ((q, w) ∷ []) p fits)
              (sym (here_l q k v l r s h avl sorted p) ∙ absent)))
    | inr n ↦ elim (Bool-cases (c.less k q)) [
      | inl p ↦
          rw (n, p, insert_node)
            (Changes-r q k v l r s h avl sorted ((q, w) ∷ []) fits _ p (
              insert_absent r q w avl.1 (IsSorted-r q k v l r s h avl sorted)
                (Fits-r q k v l r s h avl sorted ((q, w) ∷ []) p fits)
                (sym (here_r q k v l r s h avl sorted p) ∙ absent)))
      | inr m ↦ cc (absent, cut_here q k v l r s h avl sorted (n, m))
    ]
  ]

  pub insert_present :
      (t : Tree K V) (q : K) (w : V) {e : K × V}
      → IsAvl t
      → IsSorted (entries t)
      → (cut q (entries t)).here ≡ some e
      → insert_node t q w ≡ ok none
  unfolding insert_node
  insert_present null q w avl sorted present = cc (present, cut-nil {V = V} q)
  insert_present (node k v l r s h) q w avl sorted present = elim (Bool-cases (c.less q k)) [
    | inl p ↦ rw (
      p,
      insert_present l q w avl.0 (IsSorted-l q k v l r s h avl sorted)
          (sym (here_l q k v l r s h avl sorted p) ∙ present),
      insert_node,
    )
    | inr n ↦ elim (Bool-cases (c.less k q)) [
      | inl p ↦ rw (
        n,
        p,
        insert_present r q w avl.1 (IsSorted-r q k v l r s h avl sorted)
            (sym (here_r q k v l r s h avl sorted p) ∙ present),
        insert_node,
      )
      | inr m ↦ rw (n, m, insert_node)
    ]
  ]
