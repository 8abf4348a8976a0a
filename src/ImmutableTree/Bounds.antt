-- ===== src/ImmutableTree/Bounds.antt =====
-- The guards and the casts of `MakeNode`, over balanced subtrees.
use cpp_util.Util.{
  ◌+◌, ◌-◌, ◌≤◌, max, ℕ, ◌<◌, refl, ◌≡◌, arith, true, false, ◌||◌, ltb, if◌then◌else◌, Bool-cases,
  inl, inr,
}
use cpp_util.Container.Outcome.{ok, throw, Error}
use cpp_util.ImmutableTree.{Tree, u16_max, u32_max, height, size, make_node}
use cpp_util.ImmutableTree.Avl.{IsAvl, height_bound, size-le}
use cpp_util.ImmutableTree.Rotate.{joined, make_node_lem}

under_u16 : (a b : ℕ) → a ≤ 65 → b ≤ 65 → ltb u16_max (1 + max a b) ≡ false
under_u16 a b ha hb = ground arith

over_u32 :
    (a b : ℕ)
    → a ≤ u32_max
    → ltb u32_max (1 + a + b) ≡ true
    → (ltb (u32_max - 1) a || ltb (u32_max - 1 - a) b) ≡ true
over_u32 a b ha over = ground arith

fits_u32 : (a b : ℕ) → ltb u32_max (1 + a + b) ≡ false → a + b < u32_max
fits_u32 a b h = ground arith

module _ {ℓ κ} {K : Type ℓ} {V : Type κ} where
  -- Over any two balanced subtrees with right cached fields `MakeNode` never throws for its
  -- height, and its casts lose nothing: it throws for its size exactly where the entries with the
  -- new one are more than 2 ^ 32 - 1, and else returns the node with the exact size and height.
  pub make_node_exact :
      (k : K) (v : V) (l r : Tree K V)
      → IsAvl l
      → IsAvl r
      → make_node k v l r ≡ (
          if ltb u32_max (1 + size l + size r)
          then throw Error.size_exceeds
          else ok (joined k v l r))
  unfolding make_node
  make_node_exact k v l r al ar =
      let hl = height_bound l al in
      let hr = height_bound r ar in
      let sl = size-le l al in
      elim (Bool-cases (ltb u32_max (1 + size l + size r))) [
        | inl over ↦
            rw (over, under_u16 (height l) (height r) hl hr, over_u32 (size l) (size r) sl over)
              refl
        | inr fits ↦
            rw fits
              (make_node_lem k v l r (omega arith) (omega arith) (fits_u32 (size l) (size r) fits))
      ]
