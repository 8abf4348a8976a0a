-- ===== src/ImmutableBlockTree/InBlock.antt =====
-- `MakeBalanced`, `BuildSplitNodes`, `InsertInNodeBlock`, `UpdateInNodeBlock`: a node whose block has
-- changed.
use cpp_util.Util.{
  ℕ, ◌+◌, ◌≤◌, max, ◌≡◌, refl, Bool, true, false, not, ◌&&◌, List, [], ◌∷◌, ◌++◌, arith, inl, inr,
  append_assoc, append-nil, Bool-cases, ◌∙◌, ap, sym, subst, length, length-append, All,
}
use cpp_util.Container.Comparator.{Comparator}
use cpp_util.Container.Blocks.{Blocks, contents}
use cpp_util.Container.Store.{u32_max}
use cpp_util.Container.Outcome.{ok}
use cpp_util.ImmutableBlockTree.{
  Tree, null, height, size, rebuild, normalize_node, build_split_nodes, insert_in_block,
  update_in_block, single_node,
}
use cpp_util.ImmutableBlockTree.Avl.{IsAvl, entries, length-entries}
use cpp_util.ImmutableBlockTree.Rotate.{make_node_lem, joined}
use cpp_util.ImmutableBlockTree.Balance.{rebuild_lem}
use cpp_util.ImmutableBlockTree.Normalize.{Gives, normalize_node-Gives}

both_true : (a b : Bool) → (not a && b) ≡ true → (a ≡ false) × (b ≡ true)
both_true true b e = cc e
both_true false b e = (refl, e)

module _ {ℓ} {K V : Type ℓ} ⦃c : Comparator K⦄ (S : Blocks K V) where
  open S use {B}

  -- The entries of a node whose block holds `es`.
  abbrev pub around : Tree B → List (K × V) → Tree B → List (K × V)
  around l es r = entries S l ++ (es ++ entries S r)

  length-around :
      (l : Tree B) (es : List (K × V)) (r : Tree B)
      → IsAvl S l
      → IsAvl S r
      → length (around l es r) ≡ size l + length es + size r
  length-around l es r al ar = omega (
    arith,
    length-append (entries S l) (es ++ entries S r),
    length-append es (entries S r),
    length-entries S l al,
    length-entries S r ar,
  )

  -- Over siblings of a balanced node the height is kept.
  pub rebuild-Gives :
      (b : B) (l r : Tree B)
      → S.IsBlock b
      → IsAvl S l
      → IsAvl S r
      → height l ≤ height r + 1
      → height r ≤ height l + 1
      → length (around l (S.view b) r) ≤ u32_max
      → (t : Tree B) × (rebuild S b l r ≡ ok t)
        × IsAvl S t
        × (entries S t ≡ around l (S.view b) r)
        × (height t ≡ 1 + max (height l) (height r))
  rebuild-Gives b l r kb al ar dl dr fits =
      let (t, made, avl, content, sized, low, high, top) =
        rebuild_lem S b l r kb al ar
          (omega (arith, length-around l (S.view b) r al ar, S.count_view b)) (omega arith)
          (omega arith) in
      (t, made, avl, content, omega arith)

  pub build_split_nodes-Gives :
      (b : B) (bs : List B) (l r : Tree B)
      → S.IsBlock b
      → All S.IsBlock bs
      → IsAvl S l
      → IsAvl S r
      → length (around l (S.view b ++ contents S.IsBlock S.view bs) r) ≤ u32_max
      → Gives S
          (build_split_nodes S (b ∷ bs) l r)
          (around l (S.view b ++ contents S.IsBlock S.view bs) r)
  unfolding build_split_nodes
  build_split_nodes-Gives b [] l r kb kbs al ar fits =
      subst (λ es. Gives S (normalize_node S b l r) (around l es r)) (sym (append-nil (S.view b)))
        (normalize_node-Gives S b l r kb al ar
          (subst (λ es. length (around l es r) ≤ u32_max) (append-nil (S.view b)) fits))
  build_split_nodes-Gives b (b' ∷ bs) l r kb (kb', kbs) al ar fits =
      let rest = S.view b' ++ contents S.IsBlock S.view bs in
      let (t, made, at, content) = build_split_nodes-Gives b' bs null r kb' kbs tt ar (
        omega (
          arith,
          length-around l (S.view b ++ rest) r al ar,
          length-append (S.view b) rest,
          length-append rest (entries S r),
          length-entries S r ar,
        )) in
      let whole : around l (S.view b) t ≡ around l (S.view b ++ rest) r =
        ap (λ es. entries S l ++ (S.view b ++ es)) content
        ∙ ap (λ es. entries S l ++ es) (sym (append_assoc (S.view b) rest (entries S r))) in
      let (t', made', at', content') =
        normalize_node-Gives S b l t kb al at
          (subst (λ es. length es ≤ u32_max) (sym whole) fits) in
      (t', rw (made, made') refl, at', content' ∙ whole)

  pub insert_in_block-Gives :
      (b : B) (l r : Tree B) (index : ℕ) (q : K) (w : V) (xs ys : List (K × V))
      → S.IsBlock b
      → IsAvl S l
      → IsAvl S r
      → height l ≤ height r + 1
      → height r ≤ height l + 1
      → S.view b ≡ xs ++ ys
      → length xs ≡ index
      → length (around l (xs ++ (q, w) ∷ ys) r) ≤ u32_max
      → Gives S (insert_in_block S b l r index q w) (around l (xs ++ (q, w) ∷ ys) r)
  unfolding insert_in_block
  insert_in_block-Gives b l r index q w xs ys kb al ar dl dr e at fits =
      elim (Bool-cases (not (S.full b) && S.can_insert b q w)) [
        | inl y ↦
            let (room, fit) = both_true (S.full b) (S.can_insert b q w) y in
            let (b', made, kb', view) = S.inserted_view b index q w xs ys kb room fit e at in
            let (t, made', avl, content, top) =
              rebuild-Gives b' l r kb' al ar dl dr
                (subst (λ es. length (around l es r) ≤ u32_max) (sym view) fits) in
            (t, rw (y, made, insert_in_block) made', avl, content ∙ ap (λ es. around l es r) view)
        | inr n ↦
            let (b', bs, made, kb', kbs, view) = S.split_inserted_view b index q w xs ys kb e at in
            let (t, made', avl, content) =
              build_split_nodes-Gives b' bs l r kb' kbs al ar
                (subst (λ es. length (around l es r) ≤ u32_max) (sym view) fits) in
            (t, rw (n, made, insert_in_block) made', avl, content ∙ ap (λ es. around l es r) view)
      ]

  pub update_in_block-Gives :
      (b : B) (l r : Tree B) (index : ℕ) (w : V) (xs : List (K × V)) (x : K × V) (ys : List (K × V))
      → S.IsBlock b
      → IsAvl S l
      → IsAvl S r
      → height l ≤ height r + 1
      → height r ≤ height l + 1
      → S.view b ≡ xs ++ x ∷ ys
      → length xs ≡ index
      → length (around l (xs ++ (x.0, w) ∷ ys) r) ≤ u32_max
      → Gives S (update_in_block S b l r index w) (around l (xs ++ (x.0, w) ∷ ys) r)
  unfolding update_in_block
  update_in_block-Gives b l r index w xs x ys kb al ar dl dr e at fits =
      elim (Bool-cases (S.can_update b index w)) [
        | inl y ↦
            let (b', made, kb', view) = S.updated_view b index w xs x ys kb y e at in
            let (t, made', avl, content, top) =
              rebuild-Gives b' l r kb' al ar dl dr
                (subst (λ es. length (around l es r) ≤ u32_max) (sym view) fits) in
            (t, rw (y, made, update_in_block) made', avl, content ∙ ap (λ es. around l es r) view)
        | inr n ↦
            let (b', bs, made, kb', kbs, view) = S.split_updated_view b index w xs x ys kb n e at in
            let (t, made', avl, content) =
              build_split_nodes-Gives b' bs l r kb' kbs al ar
                (subst (λ es. length (around l es r) ≤ u32_max) (sym view) fits) in
            (t, rw (n, made, update_in_block) made', avl, content ∙ ap (λ es. around l es r) view)
      ]

  -- Where the block keeps its place, so does the node its height.
  pub update_in_block_level :
      (b : B) (l r : Tree B) (index : ℕ) (w : V) (xs : List (K × V)) (x : K × V) (ys : List (K × V))
      → S.IsBlock b
      → IsAvl S l
      → IsAvl S r
      → height l ≤ height r + 1
      → height r ≤ height l + 1
      → S.view b ≡ xs ++ x ∷ ys
      → length xs ≡ index
      → length (around l (xs ++ (x.0, w) ∷ ys) r) ≤ u32_max
      → S.can_update b index w ≡ true
      → (t : Tree B) × (update_in_block S b l r index w ≡ ok t)
        × IsAvl S t
        × (entries S t ≡ around l (xs ++ (x.0, w) ∷ ys) r)
        × (height t ≡ 1 + max (height l) (height r))
  unfolding update_in_block
  update_in_block_level b l r index w xs x ys kb al ar dl dr e at fits y =
      let (b', made, kb', view) = S.updated_view b index w xs x ys kb y e at in
      let (t, made', avl, content, top) =
        rebuild-Gives b' l r kb' al ar dl dr
          (subst (λ es. length (around l es r) ≤ u32_max) (sym view) fits) in
      (t, rw (y, made, update_in_block) made', avl, content ∙ ap (λ es. around l es r) view, top)

  pub single_node-Gives : (q : K) (w : V) → Gives S (single_node S q w) ((q, w) ∷ [])
  unfolding single_node
  single_node-Gives q w =
      let (b, made, kb, view) = S.single_view (q, w) in
      let one : S.count b ≡ 1 = omega (arith, S.count_view b, ap length view) in
      (
        joined S b null null,
        rw made (make_node_lem S b null null (omega arith) (omega arith) (omega arith)),
        (tt, tt, refl, refl, omega arith, omega arith, omega arith, kb),
        append-nil (S.view b) ∙ view,
      )
