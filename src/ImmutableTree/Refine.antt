-- ===== src/ImmutableTree/Refine.antt =====
-- The public operations against the abstract view: a tree stands for the sorted list of its entries.
use cpp_util.Util.{
  ◌+◌, ◌-◌, ◌≤◌, ◌<◌, ◌≡◌, refl, List, [], ◌∷◌, Option, none, some, arith, true, false, sym, ◌∙◌,
  ap, Bool-cases, Option-cases, inl, inr, ltb, ◌||◌, max, subst,
}
use cpp_util.Container.Comparator.{Comparator, Equiv}
use cpp_util.Container.Outcome.{Outcome, ok, throw, Error}
use cpp_util.Container.Assoc
use cpp_util.Container.Assoc.{IsSorted, cut}
use cpp_util.Container.Assoc.Cutting.{IsHit, here-IsHit}
use cpp_util.Container.Assoc.Laws.{replaced-IsSorted, find-cut, find_hit, value}
use cpp_util.Container.Assoc.Find.{
  insert_miss, insert_hit, update_miss, update_hit, set_miss, set_hit, erase_miss, erase_hit,
}
use cpp_util.Container.Store.{Refines, refused, returned, Gives}
use cpp_util.ImmutableTree.{
  Tree, null, node, u16_max, u32_max, height, size, make_node, rebuild, insert_node, update_node,
  set_node, erase_node,
}
use cpp_util.ImmutableTree.Avl.{IsAvl, entries, size-le, height_bound}
use cpp_util.ImmutableTree.Change.{
  found, IsChange, here_l, here_r, cut_here, IsSorted-l, IsSorted-r,
}
use cpp_util.ImmutableTree.Insert.{insert_absent, insert_present}
use cpp_util.ImmutableTree.Update.{put, update_present, update_absent, set-IsChange}
use cpp_util.ImmutableTree.Erase.{erase_present, erase_absent}

module _ {ℓ κ} {K : Type ℓ} {V : Type κ} ⦃c : Comparator K⦄ where
  -- Balanced, with right cached fields, and sorted by the comparator.
  pub record IsValid (t : Tree K V) : Type (ℓ ⊔ κ) where
    pub avl : IsAvl t
    pub sorted : IsSorted (entries t)

  -- At the key stands `o`.
  changed :
      {m : Outcome (Option (Tree K V))} {r : Option (List (K × V))} (t t' : Tree K V) (q : K)
      → (mid : List (K × V)) (es : List (K × V)) → m ≡ ok (some t')
      → r ≡ some es
      → IsChange q t mid t'
      → IsSorted es
      → entries t' ≡ es
      → Refines IsValid entries m r
  changed t t' q mid es e e' ch sorted same =
      rw (e, e')
        (returned (record { avl = ch.avl; sorted = subst IsSorted (sym same) sorted }) same)

  -- On a valid tree of fewer than 2 ^ 32 - 1 entries `Insert` returns; it refuses exactly where
  -- the insertion into the sorted list of entries does (the key is there), and else the new tree
  -- is valid (balanced, sorted, with right cached fields) and its entries are that list.
  pub insert_node-Refines :
      (t : Tree K V) (q : K) (w : V)
      → IsValid t
      → size t < u32_max
      → Refines IsValid entries (insert_node t q w) (Assoc.insert q w (entries t))
  insert_node-Refines t q w valid room = elim (Option-cases (cut q (entries t)).here) [
    | inl miss ↦
        let (t', e, ch) = insert_absent t q w valid.avl valid.sorted (omega arith) miss in
        changed t t' q ((q, w) ∷ []) _ e (insert_miss q w (entries t) miss) ch
          (replaced-IsSorted q (entries t) (some (q, w)) valid.sorted (c.irrefl q, c.irrefl q))
          ch.content
    | inr (e, hit) ↦
        rw (insert_present t q w valid.avl valid.sorted hit, insert_hit q w (entries t) hit) refused
  ]

  hit_key : (q : K) (es : List (K × V)) {e : K × V} → (cut q es).here ≡ some e → Equiv q e.0
  hit_key q es e = subst (IsHit q) e (here-IsHit q es)

  -- On a valid tree `Update` returns; it refuses exactly where the key is not there, and else the
  -- new tree is valid and its entries are the list with that value replaced.
  pub update_node-Refines :
      (t : Tree K V) (q : K) (w : V)
      → IsValid t
      → Refines IsValid entries (update_node t q w) (Assoc.update q w (entries t))
  update_node-Refines t q w valid = elim (Option-cases (cut q (entries t)).here) [
    | inl miss ↦
        rw (update_absent t q w valid.avl valid.sorted miss, update_miss q w (entries t) miss)
          refused
    | inr (e, hit) ↦
        let (t', made, ch) =
          update_present t q w valid.avl valid.sorted hit
            (rw hit (omega (arith, size-le t valid.avl))) in
        changed t t' q ((e.0, w) ∷ []) _ made (update_hit q w (entries t) hit) ch
          (replaced-IsSorted q (entries t) (some (e.0, w)) valid.sorted (hit_key q (entries t) hit))
          ch.content
  ]

  -- On a valid tree `Erase` returns; it refuses exactly where the removal from the sorted list of
  -- entries does (the key is not there), and else the new tree is valid and its entries are the
  -- list without that one.
  pub erase_node-Refines :
      (t : Tree K V) (q : K)
      → IsValid t
      → Refines IsValid entries (erase_node t q) (Assoc.erase q (entries t))
  erase_node-Refines t q valid = elim (Option-cases (cut q (entries t)).here) [
    | inl miss ↦
        rw (erase_absent t q valid.avl valid.sorted miss, erase_miss q (entries t) miss) refused
    | inr (e, hit) ↦
        let (t', made, ch) =
          erase_present t q valid.avl valid.sorted hit (omega (arith, size-le t valid.avl)) in
        changed t t' q [] _ made (erase_hit q (entries t) hit) ch
          (replaced-IsSorted q (entries t) none valid.sorted tt) ch.content
  ]

  -- On a valid tree, which has fewer than 2 ^ 32 - 1 entries where the key is absent, `Set`
  -- returns a valid tree whose entries are the sorted list with the value put at the key.
  pub set_node-Gives :
      (t : Tree K V) (q : K) (w : V)
      → IsValid t
      → (Assoc.find q (entries t) ≡ none → size t < u32_max)
      → Gives IsValid entries (set_node t q w) (Assoc.set q w (entries t))
  set_node-Gives t q w valid room = elim (Option-cases (cut q (entries t)).here) [
    | inl miss ↦
        let (t', made, ch) =
          set-IsChange t q w ((q, w) ∷ []) valid.avl valid.sorted (sym (ap (put q w) miss))
            (omega (arith, room (find-cut q (entries t) ∙ ap value miss))) in
        let same = ch.content ∙ sym (set_miss q w (entries t) miss) in
        (
          t',
          made,
          record {
            avl = ch.avl;
            sorted = subst IsSorted (sym ch.content) (
                replaced-IsSorted q (entries t) (some (q, w)) valid.sorted
                  (c.irrefl q, c.irrefl q));
          },
          same,
        )
    | inr (e, hit) ↦
        let (t', made, ch) =
          set-IsChange t q w ((e.0, w) ∷ []) valid.avl valid.sorted (sym (ap (put q w) hit))
            (rw hit (omega (arith, size-le t valid.avl))) in
        let same = ch.content ∙ sym (set_hit q w (entries t) hit) in
        (
          t',
          made,
          record {
            avl = ch.avl;
            sorted = subst IsSorted (sym ch.content) (
                replaced-IsSorted q (entries t) (some (e.0, w)) valid.sorted
                  (hit_key q (entries t) hit));
          },
          same,
        )
  ]

  miss_of_find : (q : K) (es : List (K × V)) → Assoc.find q es ≡ none → (cut q es).here ≡ none
  miss_of_find q es e = elim (Option-cases (cut q es).here) [
    | inl miss ↦ miss
    | inr (x, hit) ↦ cc (e, find_hit q es hit)
  ]

  too_many :
      (k : K) (v : V) (l r : Tree K V)
      → height l < u16_max
      → height r < u16_max
      → size l ≤ u32_max
      → u32_max ≤ size l + size r
      → rebuild k v l r ≡ throw Error.size_exceeds
  unfolding rebuild make_node
  too_many k v l r hl hr fits full =
      let low : ltb u16_max (1 + max (height l) (height r)) ≡ false = ground arith in
      let high : (ltb (u32_max - 1) (size l) || ltb (u32_max - 1 - size l) (size r)) ≡ true =
        ground arith in
      rw (low, high) refl

  -- `Insert` of an absent key into a full tree.
  insert_node_full :
      (t : Tree K V) (q : K) (w : V)
      → IsValid t
      → size t ≡ u32_max
      → Assoc.find q (entries t) ≡ none
      → insert_node t q w ≡ throw Error.size_exceeds
  unfolding insert_node
  insert_node_full null q w valid full absent = absurd (omega arith)
  insert_node_full (node k v l r s h) q w valid full absent =
      let avl = valid.avl in
      let sorted = valid.sorted in
      let miss = miss_of_find q (entries (node k v l r s h)) absent in
      elim (Bool-cases (c.less q k)) [
        | inl p ↦
            let (l', e, ch) =
              insert_absent l q w avl.0 (IsSorted-l q k v l r s h avl sorted) (omega arith)
                (sym (here_l q k v l r s h avl sorted p) ∙ miss) in
            rw (
              p,
              e,
              too_many k v l' r (omega (arith, height_bound l' ch.avl))
                  (omega (arith, height_bound r avl.1)) (omega (arith, size-le l' ch.avl))
                  (omega (
                    arith,
                    ch.counted,
                    ap (λ (x : Option (K × V)). found x)
                        (sym (here_l q k v l r s h avl sorted p) ∙ miss),
                  )),
              insert_node,
            )
        | inr n ↦ elim (Bool-cases (c.less k q)) [
          | inl p ↦
              let (r', e, ch) =
                insert_absent r q w avl.1 (IsSorted-r q k v l r s h avl sorted) (omega arith)
                  (sym (here_r q k v l r s h avl sorted p) ∙ miss) in
              rw (
                n,
                p,
                e,
                too_many k v l r' (omega (arith, height_bound l avl.0))
                    (omega (arith, height_bound r' ch.avl)) (omega (arith, size-le l avl.0))
                    (omega (
                      arith,
                      ch.counted,
                      ap (λ (x : Option (K × V)). found x)
                          (sym (here_r q k v l r s h avl sorted p) ∙ miss),
                    )),
                insert_node,
              )
          | inr m ↦ cc (miss, cut_here q k v l r s h avl sorted (n, m))
        ]
      ]
