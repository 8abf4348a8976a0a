-- ===== src/ImmutableBlockTree/Normalize.antt =====
-- `NormalizeNode`: neighbouring blocks are merged while they fit into one, and what is left is joined.
-- Its loops and the removal of an end block call each other, so one induction on the fuel serves them.
use cpp_util.Util.{
  ℕ, zero, suc, ◌+◌, ◌*◌, ◌≤◌, ◌≡◌, refl, List, ◌++◌, arith, inl, inr, append_assoc, append-nil,
  Bool-cases, ◌∙◌, ap, sym, length, length-append,
}
use cpp_util.Container.Comparator.{Comparator}
use cpp_util.Container.Blocks.{Blocks}
use cpp_util.Container.Store.{u32_max}
use cpp_util.Container.Outcome.{Outcome, ok}
use cpp_util.ImmutableBlockTree.{
  Tree, null, node, size, find_min, find_max, erase_min, erase_max, merge_left, merge_right,
  normalize, normalize_node,
}
use cpp_util.ImmutableBlockTree.Avl.{IsAvl, entries, length-entries}
use cpp_util.ImmutableBlockTree.Join.{join_node-Joined}

module _ {ℓ} {K V : Type ℓ} ⦃c : Comparator K⦄ (S : Blocks K V) where
  open S use {B}

  -- A balanced tree of the given entries.
  abbrev pub Gives : Outcome (Tree B) → List (K × V) → Type ℓ
  Gives m es = (t : Tree B) × (m ≡ ok t) × IsAvl S t × (entries S t ≡ es)

  -- The first block of a tree, or the last, and the tree without it.
  abbrev pub FrontRemoved : Tree B → Outcome B → Outcome (Tree B) → Type ℓ
  FrontRemoved t found m =
      (b : B) × (t' : Tree B) × (found ≡ ok b)
      × (m ≡ ok t')
      × S.IsBlock b
      × IsAvl S t'
      × (S.view b ++ entries S t' ≡ entries S t)
      × (S.count b + size t' ≡ size t)

  abbrev BackRemoved : Tree B → Outcome B → Outcome (Tree B) → Type ℓ
  BackRemoved t found m =
      (b : B) × (t' : Tree B) × (found ≡ ok b)
      × (m ≡ ok t')
      × S.IsBlock b
      × IsAvl S t'
      × (entries S t' ++ S.view b ≡ entries S t)
      × (S.count b + size t' ≡ size t)

  -- A block that has grown at its front by what the subtree has lost, or at its back.
  abbrev MergedLeft : B → Tree B → Outcome (B × Tree B) → Type ℓ
  MergedLeft b l m =
      (b' : B) × (l' : Tree B) × (m ≡ ok (b', l'))
      × S.IsBlock b'
      × IsAvl S l'
      × (entries S l' ++ S.view b' ≡ entries S l ++ S.view b)
      × (S.count b' + size l' ≡ S.count b + size l)
      × (size l' ≤ size l)

  abbrev MergedRight : B → Tree B → Outcome (B × Tree B) → Type ℓ
  MergedRight b r m =
      (b' : B) × (r' : Tree B) × (m ≡ ok (b', r'))
      × S.IsBlock b'
      × IsAvl S r'
      × (S.view b' ++ entries S r' ≡ S.view b ++ entries S r)
      × (S.count b' + size r' ≡ S.count b + size r)
      × (size r' ≤ size r)

  abbrev Normal : B → Tree B → Tree B → Outcome (Tree B) → Type ℓ
  Normal b l r m =
      (t : Tree B) × (m ≡ ok t)
      × IsAvl S t
      × (entries S t ≡ entries S l ++ (S.view b ++ entries S r))
      × (size t ≡ S.count b + size l + size r)

  mutual
    unfolding find_min find_max erase_min erase_max merge_left merge_right normalize

    erase_min-FrontRemoved :
        (fuel : ℕ) (b : B) (l r : Tree B) (s h : ℕ)
        → IsAvl S (node b l r s h)
        → 3 * s ≤ fuel
        → FrontRemoved
            (node b l r s h)
            (find_min (node b l r s h))
            (erase_min S fuel (node b l r s h))
    erase_min-FrontRemoved zero b l r s h (al, ar, es, eh, dl, dr, fits, kb) enough =
        absurd (omega (arith, S.count_pos b kb))
    erase_min-FrontRemoved (suc fuel) b null r s h (al, ar, es, eh, dl, dr, fits, kb) enough =
        (b, r, refl, refl, kb, ar, refl, omega arith)
    erase_min-FrontRemoved (suc fuel) b (node lb ll lr ls lh) r s h
          (al, ar, es, eh, dl, dr, fits, kb) enough =
        let pos_b = S.count_pos b kb in
        let (m, l', found, made, km, al', content, sized) =
          erase_min-FrontRemoved fuel lb ll lr ls lh al (omega arith) in
        let pos_m = S.count_pos m km in
        let (t, made', at, content', sized') =
          normalize-Normal fuel b l' r kb al' ar (omega arith) (omega arith) in
        (
          m,
          t,
          found,
          rw made made',
          km,
          at,
          ap (λ es. S.view m ++ es) content'
              ∙ sym (append_assoc (S.view m) (entries S l') (S.view b ++ entries S r))
              ∙ ap (λ es. es ++ (S.view b ++ entries S r)) content,
          omega arith,
        )

    erase_max-BackRemoved :
        (fuel : ℕ) (b : B) (l r : Tree B) (s h : ℕ)
        → IsAvl S (node b l r s h)
        → 3 * s ≤ fuel
        → BackRemoved
            (node b l r s h)
            (find_max (node b l r s h))
            (erase_max S fuel (node b l r s h))
    erase_max-BackRemoved zero b l r s h (al, ar, es, eh, dl, dr, fits, kb) enough =
        absurd (omega (arith, S.count_pos b kb))
    erase_max-BackRemoved (suc fuel) b l null s h (al, ar, es, eh, dl, dr, fits, kb) enough = (
      b,
      l,
      refl,
      refl,
      kb,
      al,
      ap (λ es. entries S l ++ es) (sym (append-nil (S.view b))),
      omega arith,
    )
    erase_max-BackRemoved (suc fuel) b l (node rb rl rr rs rh) s h
          (al, ar, es, eh, dl, dr, fits, kb) enough =
        let pos_b = S.count_pos b kb in
        let (m, r', found, made, km, ar', content, sized) =
          erase_max-BackRemoved fuel rb rl rr rs rh ar (omega arith) in
        let pos_m = S.count_pos m km in
        let (t, made', at, content', sized') =
          normalize-Normal fuel b l r' kb al ar' (omega arith) (omega arith) in
        (
          m,
          t,
          found,
          rw made made',
          km,
          at,
          ap (λ es. es ++ S.view m) content'
              ∙ append_assoc (entries S l) (S.view b ++ entries S r') (S.view m)
              ∙ ap (λ es. entries S l ++ es) (append_assoc (S.view b) (entries S r') (S.view m))
              ∙ ap (λ es. entries S l ++ (S.view b ++ es)) content,
          omega arith,
        )

    merge_left-MergedLeft :
        (fuel : ℕ) (b : B) (l : Tree B)
        → S.IsBlock b
        → IsAvl S l
        → 3 * size l + 1 ≤ fuel
        → MergedLeft b l (merge_left S fuel b l)
    merge_left-MergedLeft zero b l kb al enough = absurd (omega arith)
    merge_left-MergedLeft (suc fuel) b null kb al enough =
        (b, null, refl, kb, tt, refl, refl, omega arith)
    merge_left-MergedLeft (suc fuel) b (node lb ll lr ls lh) kb al enough =
        let (m, l', found, made, km, al', content, sized) =
          erase_max-BackRemoved fuel lb ll lr ls lh al (omega arith) in
        let pos_m = S.count_pos m km in
        elim (Bool-cases (S.can_merge m b)) [
          | inr n ↦ (
            b,
            node lb ll lr ls lh,
            rw (found, n, merge_left) refl,
            kb,
            al,
            refl,
            refl,
            omega arith,
          )
          | inl y ↦
              let (b', made_b, kb', view_b) = S.merged_view m b km kb y in
              let (b'', l'', made'', kb'', al'', content'', sized'', less'') =
                merge_left-MergedLeft fuel b' l' kb' al' (omega arith) in
              let count_b : S.count b' ≡ S.count m + S.count b = omega (
                arith,
                S.count_view b',
                S.count_view m,
                S.count_view b,
                ap length view_b,
                length-append (S.view m) (S.view b),
              ) in
              (
                b'',
                l'',
                rw (found, y, made_b, made, merge_left) made'',
                kb'',
                al'',
                content''
                    ∙ ap (λ es. entries S l' ++ es) view_b
                    ∙ sym (append_assoc (entries S l') (S.view m) (S.view b))
                    ∙ ap (λ es. es ++ S.view b) content,
                omega arith,
                omega arith,
              )
        ]

    merge_right-MergedRight :
        (fuel : ℕ) (b : B) (r : Tree B)
        → S.IsBlock b
        → IsAvl S r
        → 3 * size r + 1 ≤ fuel
        → MergedRight b r (merge_right S fuel b r)
    merge_right-MergedRight zero b r kb ar enough = absurd (omega arith)
    merge_right-MergedRight (suc fuel) b null kb ar enough =
        (b, null, refl, kb, tt, refl, refl, omega arith)
    merge_right-MergedRight (suc fuel) b (node rb rl rr rs rh) kb ar enough =
        let (m, r', found, made, km, ar', content, sized) =
          erase_min-FrontRemoved fuel rb rl rr rs rh ar (omega arith) in
        let pos_m = S.count_pos m km in
        elim (Bool-cases (S.can_merge b m)) [
          | inr n ↦ (
            b,
            node rb rl rr rs rh,
            rw (found, n, merge_right) refl,
            kb,
            ar,
            refl,
            refl,
            omega arith,
          )
          | inl y ↦
              let (b', made_b, kb', view_b) = S.merged_view b m kb km y in
              let (b'', r'', made'', kb'', ar'', content'', sized'', less'') =
                merge_right-MergedRight fuel b' r' kb' ar' (omega arith) in
              let count_b : S.count b' ≡ S.count b + S.count m = omega (
                arith,
                S.count_view b',
                S.count_view m,
                S.count_view b,
                ap length view_b,
                length-append (S.view b) (S.view m),
              ) in
              (
                b'',
                r'',
                rw (found, y, made_b, made, merge_right) made'',
                kb'',
                ar'',
                content''
                    ∙ ap (λ es. es ++ entries S r') view_b
                    ∙ append_assoc (S.view b) (S.view m) (entries S r')
                    ∙ ap (λ es. S.view b ++ es) content,
                omega arith,
                omega arith,
              )
        ]

    normalize-Normal :
        (fuel : ℕ) (b : B) (l r : Tree B)
        → S.IsBlock b
        → IsAvl S l
        → IsAvl S r
        → S.count b + size l + size r ≤ u32_max
        → 3 * (size l + size r) + 2 ≤ fuel
        → Normal b l r (normalize S fuel b l r)
    normalize-Normal zero b l r kb al ar fits enough = absurd (omega arith)
    normalize-Normal (suc fuel) b l r kb al ar fits enough =
        let (b1, l1, made1, kb1, al1, content1, sized1, less1) =
          merge_left-MergedLeft fuel b l kb al (omega arith) in
        let (b2, r2, made2, kb2, ar2, content2, sized2, less2) =
          merge_right-MergedRight fuel b1 r kb1 ar (omega arith) in
        let (t, made, at, content, sized, low, high) =
          join_node-Joined S b2 l1 r2 kb2 al1 ar2 (omega arith) in
        (
          t,
          rw (made1, made2) made,
          at,
          content
              ∙ ap (λ es. entries S l1 ++ es) content2
              ∙ sym (append_assoc (entries S l1) (S.view b1) (entries S r))
              ∙ ap (λ es. es ++ entries S r) content1
              ∙ append_assoc (entries S l) (S.view b) (entries S r),
          omega arith,
        )

  -- Over a block that a tree may hold and two balanced subtrees, of 2 ^ 32 - 1 entries at most
  -- together, `NormalizeNode` returns: its loops, which erase from a subtree and so normalize
  -- again below, end within the fuel; the result is balanced and has the entries of the three in
  -- their order.
  pub normalize_node-Gives :
      (b : B) (l r : Tree B)
      → S.IsBlock b
      → IsAvl S l
      → IsAvl S r
      → length (entries S l ++ (S.view b ++ entries S r)) ≤ u32_max
      → Gives (normalize_node S b l r) (entries S l ++ (S.view b ++ entries S r))
  unfolding normalize_node
  normalize_node-Gives b l r kb al ar fits =
      let room : S.count b + size l + size r ≤ u32_max = omega (
        arith,
        length-append (entries S l) (S.view b ++ entries S r),
        length-append (S.view b) (entries S r),
        length-entries S l al,
        length-entries S r ar,
        S.count_view b,
      ) in
      let (t, made, at, content, sized) =
        normalize-Normal (3 * (size l + size r) + 2) b l r kb al ar room (omega arith) in
      (t, made, at, content)

  -- The first block of a tree that is not empty is taken off.
  pub erase_min_first :
      (b : B) (l r : Tree B) (s h : ℕ)
      → IsAvl S (node b l r s h)
      → FrontRemoved
          (node b l r s h)
          (find_min (node b l r s h))
          (erase_min S (3 * s) (node b l r s h))
  erase_min_first b l r s h a = erase_min-FrontRemoved (3 * s) b l r s h a (omega arith)
