-- ===== src/ImmutableTree/Erase.antt =====
-- `FindMin`, `EraseMin` and `EraseNode`.
use cpp_util.Util.{
  ℕ, ◌+◌, ◌≤◌, ◌<◌, max, ◌≡◌, refl, List, [], ◌∷◌, ◌++◌, none, some, arith, sym, ◌∙◌, ap,
  Bool-cases, inl, inr, append-nil,
}
use cpp_util.Container.Comparator.{Comparator}
use cpp_util.Container.Outcome.{ok}
use cpp_util.Container.Assoc.{IsSorted, cut, Cut}
use cpp_util.Container.Assoc.Cutting.{cut-nil}
use cpp_util.ImmutableTree.{
  Tree, null, node, u32_max, height, size, find_min, erase_min, erase_here, erase_node,
}
use cpp_util.ImmutableTree.Avl.{IsAvl, entries}
use cpp_util.ImmutableTree.Balance.{rebuild_lem}
use cpp_util.ImmutableTree.Change.{
  found, filled, Fits, IsSorted-l, IsSorted-r, Fits-l, Fits-r, here_l, here_r, cut_here, Changes,
  Changes-l, Changes-r,
}

module _ {ℓ κ} {K : Type ℓ} {V : Type κ} where
  -- The first entry is found and taken off.
  abbrev MinErased : Tree K V → Type (ℓ ⊔ κ)
  MinErased t =
      (e : K × V) × (t' : Tree K V) × (find_min t ≡ some e)
      × (erase_min t ≡ ok t')
      × IsAvl t'
      × (entries t ≡ e ∷ entries t')
      × (size t ≡ 1 + size t')
      × (height t' ≤ height t)
      × (height t ≤ height t' + 1)

  erase_min_lem :
      (k : K) (v : V) (l r : Tree K V) (s h : ℕ)
      → IsAvl (node k v l r s h)
      → MinErased (node k v l r s h)
  unfolding find_min erase_min
  erase_min_lem k v null r s h avl =
      ((k, v), r, refl, refl, avl.1, refl, omega arith, omega arith, omega arith)
  erase_min_lem k v (node lk lv ll lr ls lh) r s h avl =
      let (e, l', least, erased, al, es, count, low, high) =
        erase_min_lem lk lv ll lr ls lh avl.0 in
      let (t', made, a, es', count', low', high', even) =
        rebuild_lem k v l' r al avl.1 (omega arith) (omega arith) (omega arith) in
      (
        e,
        t',
        least,
        rw (erased, made, erase_min) refl,
        a,
        ap (λ (x : List (K × V)). x ++ (k, v) ∷ entries r) es ∙ ap (◌∷◌ e) (sym es'),
        omega arith,
        omega arith,
        omega arith,
      )

  -- The two subtrees of an erased node become one tree.
  abbrev Joined : Tree K V → Tree K V → Type (ℓ ⊔ κ)
  Joined l r =
      (t' : Tree K V) × (erase_here l r ≡ ok (some t'))
      × IsAvl t'
      × (entries t' ≡ entries l ++ entries r)
      × (size t' ≡ size l + size r)
      × (height t' ≤ 1 + max (height l) (height r))
      × (height l ≤ height t')
      × (height r ≤ height t')

  erase_here_lem :
      (l r : Tree K V)
      → IsAvl l
      → IsAvl r
      → size l + size r < u32_max
      → height l ≤ height r + 1
      → height r ≤ height l + 1
      → Joined l r
  unfolding erase_here
  erase_here_lem null r al ar fits dl dr =
      (r, refl, ar, refl, omega arith, omega arith, omega arith, omega arith)
  erase_here_lem (node lk lv ll lr ls lh) null al ar fits dl dr = (
    node lk lv ll lr ls lh,
    refl,
    al,
    sym (append-nil _),
    omega arith,
    omega arith,
    omega arith,
    omega arith,
  )
  erase_here_lem (node lk lv ll lr ls lh) (node rk rv rl rr rs rh) al ar fits dl dr =
      let (e, r', least, erased, ar', es, count, low, high) = erase_min_lem rk rv rl rr rs rh ar in
      let (t', made, a, es', count', low', high', even) =
        rebuild_lem e.0 e.1 (node lk lv ll lr ls lh) r' al ar' (omega arith) (omega arith)
          (omega arith) in
      (
        t',
        rw (least, erased, made, erase_here) refl,
        a,
        es' ∙ ap (◌++◌ (entries (node lk lv ll lr ls lh))) (sym es),
        omega arith,
        omega arith,
        omega arith,
        omega arith,
      )

module _ {ℓ κ} {K : Type ℓ} {V : Type κ} ⦃c : Comparator K⦄ where
  pub erase_present :
      (t : Tree K V) (q : K) {e : K × V}
      → IsAvl t
      → IsSorted (entries t)
      → (cut q (entries t)).here ≡ some e
      → Fits q t []
      → Changes q t [] (erase_node t q)
  unfolding erase_node
  erase_present null q avl sorted present fits = cc (present, cut-nil {V = V} q)
  erase_present (node k v l r s h) q avl sorted present fits = elim (Bool-cases (c.less q k)) [
    | inl p ↦
        rw (p, erase_node)
          (Changes-l q k v l r s h avl sorted [] fits _ p (
            erase_present l q avl.0 (IsSorted-l q k v l r s h avl sorted)
              (sym (here_l q k v l r s h avl sorted p) ∙ present)
              (Fits-l q k v l r s h avl sorted [] p fits)))
    | inr n ↦ elim (Bool-cases (c.less k q)) [
      | inl p ↦
          rw (n, p, erase_node)
            (Changes-r q k v l r s h avl sorted [] fits _ p (
              erase_present r q avl.1 (IsSorted-r q k v l r s h avl sorted)
                (sym (here_r q k v l r s h avl sorted p) ∙ present)
                (Fits-r q k v l r s h avl sorted [] p fits)))
      | inr m ↦
          let at_key = cut_here q k v l r s h avl sorted (n, m) in
          let same = ap (λ (x : Cut (K × V)). found x.here) at_key in
          let (t', made, a, es, count, up, low_l, low_r) =
            erase_here_lem l r avl.0 avl.1 (omega arith) (omega arith) (omega arith) in
          rw (n, m, erase_node)
            (
              t',
              made,
              record {
                avl = a;
                content = es ∙ ap (λ (x : Cut (K × V)). filled x []) (sym at_key);
                counted = omega arith;
                higher = omega arith;
                lower = omega arith;
              },
            )
    ]
  ]

  pub erase_absent :
      (t : Tree K V) (q : K)
      → IsAvl t
      → IsSorted (entries t)
      → (cut q (entries t)).here ≡ none
      → erase_node t q ≡ ok none
  unfolding erase_node
  erase_absent null q avl sorted absent = refl
  erase_absent (node k v l r s h) q avl sorted absent = elim (Bool-cases (c.less q k)) [
    | inl p ↦ rw (
      p,
      erase_absent l q avl.0 (IsSorted-l q k v l r s h avl sorted)
          (sym (here_l q k v l r s h avl sorted p) ∙ absent),
      erase_node,
    )
    | inr n ↦ elim (Bool-cases (c.less k q)) [
      | inl p ↦ rw (
        n,
        p,
        erase_absent r q avl.1 (IsSorted-r q k v l r s h avl sorted)
            (sym (here_r q k v l r s h avl sorted p) ∙ absent),
        erase_node,
      )
      | inr m ↦ cc (absent, cut_here q k v l r s h avl sorted (n, m))
    ]
  ]
