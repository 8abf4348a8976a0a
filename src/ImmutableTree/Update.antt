-- ===== src/ImmutableTree/Update.antt =====
-- `UpdateNode` and `SetNode`.
use cpp_util.Util.{
  ◌≡◌, refl, List, [], ◌∷◌, Option, none, some, arith, sym, ◌∙◌, ap, Bool-cases, inl, inr,
}
use cpp_util.Container.Comparator.{Comparator}
use cpp_util.Container.Outcome.{ok}
use cpp_util.Container.Assoc.{IsSorted, cut, Cut}
use cpp_util.Container.Assoc.Cutting.{cut-nil}
use cpp_util.ImmutableTree.{Tree, null, node, update_node, set_node}
use cpp_util.ImmutableTree.Avl.{IsAvl, entries}
use cpp_util.ImmutableTree.Rotate.{joined, make_node_lem}
use cpp_util.ImmutableTree.Change.{
  IsChange, Fits, IsSorted-l, IsSorted-r, Fits-l, Fits-r, rebuild_l, rebuild_r, here_l, here_r,
  cut_here, Changes, Changes-l, Changes-r, made-IsChange, rebuild_here,
}

-- The entry that `Update` and `Set` leave: the stored key stays.
abbrev pub put {ℓ κ} : {K : Type ℓ} {V : Type κ} → K → V → Option (K × V) → List (K × V)
put q w none = (q, w) ∷ []
put q w (some e) = (e.0, w) ∷ []

module _ {ℓ κ} {K : Type ℓ} {V : Type κ} ⦃c : Comparator K⦄ where
  pub update_present :
      (t : Tree K V) (q : K) (w : V) {e : K × V}
      → IsAvl t
      → IsSorted (entries t)
      → (cut q (entries t)).here ≡ some e
      → Fits q t ((e.0, w) ∷ [])
      → Changes q t ((e.0, w) ∷ []) (update_node t q w)
  unfolding update_node
  update_present null q w avl sorted present fits = cc (present, cut-nil {V = V} q)
  update_present (node k v l r s h) q w {e} avl sorted present fits =
      elim (Bool-cases (c.less q k)) [
        | inl p ↦
            rw (p, update_node)
              (Changes-l q k v l r s h avl sorted _ fits _ p (
                update_present l q w avl.0 (IsSorted-l q k v l r s h avl sorted)
                  (sym (here_l q k v l r s h avl sorted p) ∙ present)
                  (Fits-l q k v l r s h avl sorted ((e.0, w) ∷ []) p fits)))
        | inr n ↦ elim (Bool-cases (c.less k q)) [
          | inl p ↦
              rw (n, p, update_node)
                (Changes-r q k v l r s h avl sorted _ fits _ p (
                  update_present r q w avl.1 (IsSorted-r q k v l r s h avl sorted)
                    (sym (here_r q k v l r s h avl sorted p) ∙ present)
                    (Fits-r q k v l r s h avl sorted ((e.0, w) ∷ []) p fits)))
          | inr m ↦
              let same : k ≡ e.0 = cc (present, cut_here q k v l r s h avl sorted (n, m)) in
              let (t', made, ch) = rebuild_here q k v l r s h avl sorted k w (n, m) in
              rw (n, m, ← same, update_node) (t', rw made refl, ch)
        ]
      ]

  pub update_absent :
      (t : Tree K V) (q : K) (w : V)
      → IsAvl t
      → IsSorted (entries t)
      → (cut q (entries t)).here ≡ none
      → update_node t q w ≡ ok none
  unfolding update_node
  update_absent null q w avl sorted absent = refl
  update_absent (node k v l r s h) q w avl sorted absent = elim (Bool-cases (c.less q k)) [
    | inl p ↦ rw (
      p,
      update_absent l q w avl.0 (IsSorted-l q k v l r s h avl sorted)
          (sym (here_l q k v l r s h avl sorted p) ∙ absent),
      update_node,
    )
    | inr n ↦ elim (Bool-cases (c.less k q)) [
      | inl p ↦ rw (
        n,
        p,
        update_absent r q w avl.1 (IsSorted-r q k v l r s h avl sorted)
            (sym (here_r q k v l r s h avl sorted p) ∙ absent),
        update_node,
      )
      | inr m ↦ cc (absent, cut_here q k v l r s h avl sorted (n, m))
    ]
  ]

  -- `Set` inserts or overwrites. The list at the key is a variable with an equation, for the induction.
  pub set-IsChange :
      (t : Tree K V) (q : K) (w : V) (mid : List (K × V))
      → IsAvl t
      → IsSorted (entries t)
      → mid ≡ put q w (cut q (entries t)).here
      → Fits q t mid
      → (t' : Tree K V) × (set_node t q w ≡ ok t') × IsChange q t mid t'
  unfolding set_node
  set-IsChange null q w mid avl sorted is fits =
      let same : mid ≡ (q, w) ∷ [] = rw (cut-nil {V = V} q) at is in
      rw (same, make_node_lem q w null null (omega arith) (omega arith) (omega arith))
        (joined q w null null, refl, made-IsChange q w)
  set-IsChange (node k v l r s h) q w mid avl sorted is fits = elim (Bool-cases (c.less q k)) [
    | inl p ↦
        let (l', e, ch) =
          set-IsChange l q w mid avl.0 (IsSorted-l q k v l r s h avl sorted)
            (is ∙ ap (put q w) (here_l q k v l r s h avl sorted p))
            (Fits-l q k v l r s h avl sorted mid p fits) in
        let (t', e', ch') = rebuild_l q k v l r s h avl sorted mid l' p fits ch in
        (t', rw (p, e, e', set_node) refl, ch')
    | inr n ↦ elim (Bool-cases (c.less k q)) [
      | inl p ↦
          let (r', e, ch) =
            set-IsChange r q w mid avl.1 (IsSorted-r q k v l r s h avl sorted)
              (is ∙ ap (put q w) (here_r q k v l r s h avl sorted p))
              (Fits-r q k v l r s h avl sorted mid p fits) in
          let (t', e', ch') = rebuild_r q k v l r s h avl sorted mid r' p fits ch in
          (t', rw (n, p, e, e', set_node) refl, ch')
      | inr m ↦
          let same : mid ≡ (k, w) ∷ [] =
            is
            ∙ ap (λ (x : Cut (K × V)). put q w x.here) (cut_here q k v l r s h avl sorted (n, m)) in
          let (t', made, ch) = rebuild_here q k v l r s h avl sorted k w (n, m) in
          rw (n, m, same, set_node) (t', rw made refl, ch)
    ]
  ]
