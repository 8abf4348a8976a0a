-- ===== src/ImmutableBlockTree/Join.antt =====
-- `JoinNode`: two balanced trees of any heights, with a block between them.
use cpp_util.Util.{
  ℕ, ◌+◌, ◌≤◌, ◌<◌, max, ◌≡◌, false, ◌++◌, arith, inl, inr, append_assoc, Bool-cases, ltb, ltb→lt,
  ◌∙◌, ap,
}
use cpp_util.Container.Comparator.{Comparator}
use cpp_util.Container.Blocks.{Blocks}
use cpp_util.Container.Store.{u32_max}
use cpp_util.Container.Outcome.{Outcome, ok, ◌>>=◌}
use cpp_util.ImmutableBlockTree.{Tree, null, node, height, size, rebuild, join_node}
use cpp_util.ImmutableBlockTree.Avl.{IsAvl, entries}
use cpp_util.ImmutableBlockTree.Balance.{Rebuilt, rebuild_lem}

not_above : (a b : ℕ) → ltb a b ≡ false → b ≤ a
not_above a b e = ground arith

module _ {ℓ} {K V : Type ℓ} ⦃c : Comparator K⦄ (S : Blocks K V) where
  open S use {B}

  -- What a joined tree is: as high as the higher of the two, or one level higher.
  abbrev pub Joined : B → Tree B → Tree B → Outcome (Tree B) → Type ℓ
  Joined b l r m =
      (t : Tree B) × (m ≡ ok t)
      × IsAvl S t
      × (entries S t ≡ entries S l ++ (S.view b ++ entries S r))
      × (size t ≡ S.count b + size l + size r)
      × (height t ≤ 1 + max (height l) (height r))
      × (max (height l) (height r) ≤ height t)

  Rebuilt-Joined :
      (b : B) (l r : Tree B) (m : Outcome (Tree B)) → Rebuilt S b l r m → Joined b l r m
  Rebuilt-Joined b l r m (t, made, avl, content, sized, low, high, top) =
      (t, made, avl, content, sized, low, high)

  Joined-right :
      (b lb : B) (ll lr : Tree B) (ls lh : ℕ) (r : Tree B) (m : Outcome (Tree B))
      → IsAvl S (node lb ll lr ls lh)
      → height r + 1 < lh
      → S.count b + ls + size r ≤ u32_max
      → Joined b lr r m
      → Joined b (node lb ll lr ls lh) r (m >>= λ n. rebuild S lb ll n)
  Joined-right b lb ll lr ls lh r m (all, alr, es, eh, dl, dr, fits, kl) far room
        (j, made_j, avl_j, content_j, sized_j, low_j, high_j) =
      let (t, made, avl, content, sized, low, high, top) =
        rebuild_lem S lb ll j kl all avl_j (omega arith) (omega arith) (omega arith) in
      (
        t,
        rw made_j made,
        avl,
        content ∙ ap (λ l. entries S ll ++ (S.view lb ++ l)) content_j ∙ simp append_assoc,
        omega arith,
        omega arith,
        omega arith,
      )

  Joined-left :
      (b rb : B) (rl rr : Tree B) (rs rh : ℕ) (l : Tree B) (m : Outcome (Tree B))
      → IsAvl S (node rb rl rr rs rh)
      → height l + 1 < rh
      → S.count b + size l + rs ≤ u32_max
      → Joined b l rl m
      → Joined b l (node rb rl rr rs rh) (m >>= λ n. rebuild S rb n rr)
  Joined-left b rb rl rr rs rh l m (arl, arr, es, eh, dl, dr, fits, kr) far room
        (j, made_j, avl_j, content_j, sized_j, low_j, high_j) =
      let (t, made, avl, content, sized, low, high, top) =
        rebuild_lem S rb j rr kr avl_j arr (omega arith) (omega arith) (omega arith) in
      (
        t,
        rw made_j made,
        avl,
        content ∙ ap (λ l. l ++ (S.view rb ++ entries S rr)) content_j ∙ simp append_assoc,
        omega arith,
        omega arith,
        omega arith,
      )

  even :
      (b : B) (l r : Tree B)
      → S.IsBlock b
      → IsAvl S l
      → IsAvl S r
      → S.count b + size l + size r ≤ u32_max
      → height l ≤ height r + 1
      → height r ≤ height l + 1
      → Joined b l r (rebuild S b l r)
  even b l r kb al ar room dl dr =
      Rebuilt-Joined b l r _ (rebuild_lem S b l r kb al ar room (omega arith) (omega arith))

  -- Over a block that a tree may hold and two balanced subtrees of any heights, of 2 ^ 32 - 1
  -- entries at most together, `JoinNode` returns a balanced tree with right cached fields, of the
  -- entries of the three in their order, that is as high as the higher subtree or one level
  -- higher.
  pub join_node-Joined :
      (b : B) (l r : Tree B)
      → S.IsBlock b
      → IsAvl S l
      → IsAvl S r
      → S.count b + size l + size r ≤ u32_max
      → Joined b l r (join_node S b l r)
  unfolding join_node
  join_node-Joined b null null kb al ar room =
      even b null null kb al ar room (omega arith) (omega arith)
  join_node-Joined b null (node rb rl rr rs rh) kb al ar room = elim (Bool-cases (ltb 1 rh)) [
    | inl p ↦
        rw (p, join_node)
          (Joined-left b rb rl rr rs rh null _ ar (ltb→lt 1 rh p) room
            (join_node-Joined b null rl kb al ar.0 (omega arith)))
    | inr n ↦
        rw (n, join_node)
          (even b null (node rb rl rr rs rh) kb al ar room (omega arith) (not_above 1 rh n))
  ]
  join_node-Joined b (node lb ll lr ls lh) null kb al ar room = elim (Bool-cases (ltb 1 lh)) [
    | inl p ↦
        rw (p, join_node)
          (Joined-right b lb ll lr ls lh null _ al (ltb→lt 1 lh p) room
            (join_node-Joined b lr null kb al.1 ar (omega arith)))
    | inr n ↦
        rw (n, join_node)
          (even b (node lb ll lr ls lh) null kb al ar room (not_above 1 lh n) (omega arith))
  ]
  join_node-Joined b (node lb ll lr ls lh) (node rb rl rr rs rh) kb al ar room =
      elim (Bool-cases (ltb (rh + 1) lh)) [
        | inl p ↦
            rw (p, join_node)
              (Joined-right b lb ll lr ls lh (node rb rl rr rs rh) _ al (ltb→lt (rh + 1) lh p) room
                (join_node-Joined b lr (node rb rl rr rs rh) kb al.1 ar (omega arith)))
        | inr n ↦ elim (Bool-cases (ltb (lh + 1) rh)) [
          | inl p ↦
              rw (n, p, join_node)
                (Joined-left b rb rl rr rs rh (node lb ll lr ls lh) _ ar (ltb→lt (lh + 1) rh p) room
                  (join_node-Joined b (node lb ll lr ls lh) rl kb al ar.0 (omega arith)))
          | inr m ↦
              rw (n, m, join_node)
                (even b (node lb ll lr ls lh) (node rb rl rr rs rh) kb al ar room
                  (not_above (rh + 1) lh n) (not_above (lh + 1) rh m))
        ]
      ]
