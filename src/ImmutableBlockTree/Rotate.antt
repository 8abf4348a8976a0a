-- ===== src/ImmutableBlockTree/Rotate.antt =====
-- The branches of `Balance` on a tree of blocks, and what each makes of a node.
use cpp_util.Util.{ℕ, ◌+◌, ◌≤◌, ◌<◌, max, ◌≡◌, arith, true, false, ◌%◌, ◌^◌, ◌-◌, ltb, ◌||◌, refl}
use cpp_util.Util.Int.{pos, negsuc, ltb_ℤ}
use cpp_util.Container.Outcome.{ok, ◌>>=◌}
use cpp_util.Container.Comparator.{Comparator}
use cpp_util.Container.Blocks.{Blocks}
use cpp_util.Container.Store.{u32_max}
use cpp_util.ImmutableBlockTree.{
  Tree, node, u16_max, height, size, make_node, balance_factor, rotate_left, rotate_right, balance,
}

module _ {ℓ} {K V : Type ℓ} ⦃c : Comparator K⦄ (S : Blocks K V) where
  open S use {B}

  -- The node that `make_node` makes.
  abbrev pub joined : B → Tree B → Tree B → Tree B
  joined b l r = node b l r (S.count b + size l + size r) (1 + max (height l) (height r))

  pub make_node_lem :
      (b : B) (l r : Tree B)
      → height l < u16_max
      → height r < u16_max
      → S.count b + size l + size r ≤ u32_max
      → make_node S b l r ≡ ok (joined b l r)
  unfolding make_node
  make_node_lem b l r hl hr hs =
      let low : ltb u16_max (1 + max (height l) (height r)) ≡ false = ground arith in
      let fits = room (S.count b) (size l) (size r) hs in
      let sized : (S.count b + size l + size r) % 2 ^ 32 ≡ S.count b + size l + size r =
        omega arith in
      let high : (1 + max (height l) (height r)) % 2 ^ 16 ≡ 1 + max (height l) (height r) =
        omega arith in
      rw (low, fits, sized, high, make_node) refl
    where
      room :
          (n a b : ℕ)
          → n + a + b ≤ u32_max
          → (ltb u32_max n || (ltb (u32_max - n) a || ltb (u32_max - n - a) b)) ≡ false
      room n a b h = ground arith

module _ {ℓ} {K V : Type ℓ} ⦃c : Comparator K⦄ (S : Blocks K V) (b : S.B) (l r : Tree S.B)
    (s h : ℕ) where
  left_high : height r + 2 ≤ height l → ltb_ℤ (pos 1) (balance_factor (node b l r s h)) ≡ true
  unfolding balance_factor
  left_high p = ground arith

  not_left_high : height l ≤ height r + 1 → ltb_ℤ (pos 1) (balance_factor (node b l r s h)) ≡ false
  unfolding balance_factor
  not_left_high p = ground arith

  right_high : height l + 2 ≤ height r → ltb_ℤ (balance_factor (node b l r s h)) (negsuc 0) ≡ true
  unfolding balance_factor
  right_high p = ground arith

  not_right_high :
      height r ≤ height l + 1 → ltb_ℤ (balance_factor (node b l r s h)) (negsuc 0) ≡ false
  unfolding balance_factor
  not_right_high p = ground arith

  pub leans_right : height l < height r → ltb_ℤ (balance_factor (node b l r s h)) (pos 0) ≡ true
  unfolding balance_factor
  leans_right p = ground arith

  pub not_leans_right :
      height r ≤ height l → ltb_ℤ (balance_factor (node b l r s h)) (pos 0) ≡ false
  unfolding balance_factor
  not_leans_right p = ground arith

  pub leans_left : height r < height l → ltb_ℤ (pos 0) (balance_factor (node b l r s h)) ≡ true
  unfolding balance_factor
  leans_left p = ground arith

  pub not_leans_left : height l ≤ height r → ltb_ℤ (pos 0) (balance_factor (node b l r s h)) ≡ false
  unfolding balance_factor
  not_leans_left p = ground arith

  pub balance_even :
      height l ≤ height r + 1
      → height r ≤ height l + 1
      → balance S (node b l r s h) ≡ ok (node b l r s h)
  unfolding balance
  balance_even p q = rw (not_left_high p, not_right_high q)

  pub balance_left :
      height r + 2 ≤ height l
      → ltb_ℤ (balance_factor l) (pos 0) ≡ false
      → balance S (node b l r s h) ≡ rotate_right S (node b l r s h)
  unfolding balance
  balance_left p q = rw (left_high p, q)

  pub balance_left_right :
      height r + 2 ≤ height l
      → ltb_ℤ (balance_factor l) (pos 0) ≡ true
      → balance S (node b l r s h)
        ≡ (rotate_left S l >>= (λ new_left. make_node S b new_left r >>= rotate_right S))
  unfolding balance
  balance_left_right p q = rw (left_high p, q)

  pub balance_right :
      height l + 2 ≤ height r
      → ltb_ℤ (pos 0) (balance_factor r) ≡ false
      → balance S (node b l r s h) ≡ rotate_left S (node b l r s h)
  unfolding balance
  balance_right p q = rw (not_left_high (omega arith), right_high p, q)

  pub balance_right_left :
      height l + 2 ≤ height r
      → ltb_ℤ (pos 0) (balance_factor r) ≡ true
      → balance S (node b l r s h)
        ≡ (rotate_right S r >>= (λ new_right. make_node S b l new_right >>= rotate_left S))
  unfolding balance
  balance_right_left p q = rw (not_left_high (omega arith), right_high p, q)
