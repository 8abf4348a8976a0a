-- ===== src/ImmutableTree/Rotate.antt =====
-- The branches of `Balance`, and what each makes of a node.
use cpp_util.Util.{ℕ, ◌+◌, ◌≤◌, ◌<◌, max, ◌≡◌, arith, true, false}
use cpp_util.Util.Int.{pos, negsuc, ltb_ℤ}
use cpp_util.Container.Outcome.{ok, ◌>>=◌}
use cpp_util.ImmutableTree.{
  Tree, node, u16_max, u32_max, height, size, make_node, balance_factor, rotate_left, rotate_right,
  balance,
}

module _ {ℓ κ} {K : Type ℓ} {V : Type κ} where
  -- The node that `make_node` makes.
  abbrev pub joined : K → V → Tree K V → Tree K V → Tree K V
  joined k v l r = node k v l r (1 + size l + size r) (1 + max (height l) (height r))

  pub make_node_lem :
      (k : K) (v : V) (l r : Tree K V)
      → height l < u16_max
      → height r < u16_max
      → size l + size r < u32_max
      → make_node k v l r ≡ ok (joined k v l r)
  unfolding make_node
  make_node_lem k v l r hl hr hs = ground arith

module _ {ℓ κ} {K : Type ℓ} {V : Type κ} (k : K) (v : V) (l r : Tree K V) (s h : ℕ) where
  left_high : height r + 2 ≤ height l → ltb_ℤ (pos 1) (balance_factor (node k v l r s h)) ≡ true
  unfolding balance_factor
  left_high p = ground arith

  not_left_high :
      height l ≤ height r + 1 → ltb_ℤ (pos 1) (balance_factor (node k v l r s h)) ≡ false
  unfolding balance_factor
  not_left_high p = ground arith

  right_high : height l + 2 ≤ height r → ltb_ℤ (balance_factor (node k v l r s h)) (negsuc 0) ≡ true
  unfolding balance_factor
  right_high p = ground arith

  not_right_high :
      height r ≤ height l + 1 → ltb_ℤ (balance_factor (node k v l r s h)) (negsuc 0) ≡ false
  unfolding balance_factor
  not_right_high p = ground arith

  pub leans_right : height l < height r → ltb_ℤ (balance_factor (node k v l r s h)) (pos 0) ≡ true
  unfolding balance_factor
  leans_right p = ground arith

  pub not_leans_right :
      height r ≤ height l → ltb_ℤ (balance_factor (node k v l r s h)) (pos 0) ≡ false
  unfolding balance_factor
  not_leans_right p = ground arith

  pub leans_left : height r < height l → ltb_ℤ (pos 0) (balance_factor (node k v l r s h)) ≡ true
  unfolding balance_factor
  leans_left p = ground arith

  pub not_leans_left :
      height l ≤ height r → ltb_ℤ (pos 0) (balance_factor (node k v l r s h)) ≡ false
  unfolding balance_factor
  not_leans_left p = ground arith

  pub balance_even :
      height l ≤ height r + 1
      → height r ≤ height l + 1
      → balance (node k v l r s h) ≡ ok (node k v l r s h)
  unfolding balance
  balance_even p q = rw (not_left_high p, not_right_high q)

  pub balance_left :
      height r + 2 ≤ height l
      → ltb_ℤ (balance_factor l) (pos 0) ≡ false
      → balance (node k v l r s h) ≡ rotate_right (node k v l r s h)
  unfolding balance
  balance_left p q = rw (left_high p, q)

  pub balance_left_right :
      height r + 2 ≤ height l
      → ltb_ℤ (balance_factor l) (pos 0) ≡ true
      → balance (node k v l r s h)
        ≡ (rotate_left l >>= (λ new_left. make_node k v new_left r >>= rotate_right))
  unfolding balance
  balance_left_right p q = rw (left_high p, q)

  pub balance_right :
      height l + 2 ≤ height r
      → ltb_ℤ (pos 0) (balance_factor r) ≡ false
      → balance (node k v l r s h) ≡ rotate_left (node k v l r s h)
  unfolding balance
  balance_right p q = rw (not_left_high (omega arith), right_high p, q)

  pub balance_right_left :
      height l + 2 ≤ height r
      → ltb_ℤ (pos 0) (balance_factor r) ≡ true
      → balance (node k v l r s h)
        ≡ (rotate_right r >>= (λ new_right. make_node k v l new_right >>= rotate_left))
  unfolding balance
  balance_right_left p q = rw (not_left_high (omega arith), right_high p, q)
