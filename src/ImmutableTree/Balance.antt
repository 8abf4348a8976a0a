-- ===== src/ImmutableTree/Balance.antt =====
-- `Balance(MakeNode(...))`, by the difference of the heights.
use cpp_util.Util.{ℕ, ◌+◌, ◌≤◌, ◌<◌, max, ◌≡◌, refl, ◌∷◌, ◌++◌, arith, ◌⊎◌, inl, inr, append_assoc}
use cpp_util.Container.Outcome.{Outcome, ok}
use cpp_util.ImmutableTree.{
  Tree, null, node, u32_max, height, size, rotate_left, rotate_right, rebuild,
}
use cpp_util.ImmutableTree.Avl.{IsAvl, entries, height_bound}
use cpp_util.ImmutableTree.Rotate.{
  joined, make_node_lem, balance_even, balance_left, balance_left_right, balance_right,
  balance_right_left, leans_right, leans_left, not_leans_right, not_leans_left,
}

module _ {ℓ κ} {K : Type ℓ} {V : Type κ} where
  -- What a rebuilt node is.
  abbrev pub Rebuilt : K → V → Tree K V → Tree K V → Outcome (Tree K V) → Type (ℓ ⊔ κ)
  Rebuilt k v l r m =
      (t : Tree K V) × (m ≡ ok t)
      × IsAvl t
      × (entries t ≡ entries l ++ (k, v) ∷ entries r)
      × (size t ≡ 1 + size l + size r)
      × (height t ≤ 1 + max (height l) (height r))
      × (max (height l) (height r) ≤ height t)
      × ((height t ≡ 1 + max (height l) (height r))
          ⊎ ((height l ≡ height r + 2) ⊎ (height r ≡ height l + 2)))

  rebuild_even :
      (k : K) (v : V) (l r : Tree K V)
      → IsAvl l
      → IsAvl r
      → height l < 100
      → height r < 100
      → size l + size r < u32_max
      → height l ≤ height r + 1
      → height r ≤ height l + 1
      → Rebuilt k v l r (rebuild k v l r)
  unfolding rebuild
  rebuild_even k v l r al ar hl hr hs dl dr = (
    joined k v l r,
    rw (make_node_lem k v l r (omega arith) (omega arith) hs) (balance_even k v l r _ _ dl dr),
    (al, ar, refl, refl, dl, dr, omega arith),
    refl,
    refl,
    omega arith,
    omega arith,
    inl refl,
  )

  rebuild_left :
      (k : K) (v : V) (lk : K) (lv : V) (ll lr : Tree K V) (ls lh : ℕ) (r : Tree K V)
      → IsAvl (node lk lv ll lr ls lh)
      → IsAvl r
      → lh < 100
      → height r < 100
      → ls + size r < u32_max
      → lh ≡ height r + 2
      → height lr ≤ height ll
      → Rebuilt k v (node lk lv ll lr ls lh) r (rebuild k v (node lk lv ll lr ls lh) r)
  unfolding rebuild rotate_right
  rebuild_left k v lk lv ll lr ls lh r (all, alr, es, eh, dl, dr, fits) ar hl hr hs e lean = (
    joined lk lv ll (joined k v lr r),
    rw (
      make_node_lem k v (node lk lv ll lr ls lh) r (omega arith) (omega arith) hs,
      balance_left k v (node lk lv ll lr ls lh) r (1 + ls + size r) (1 + max lh (height r))
          (omega arith) (not_leans_right lk lv ll lr ls lh lean),
      make_node_lem k v lr r (omega arith) (omega arith) (omega arith),
      make_node_lem lk lv ll (joined k v lr r) (omega arith) (omega arith) (omega arith),
    ),
    (
      all,
      (alr, ar, refl, refl, omega arith, omega arith, omega arith),
      refl,
      refl,
      omega arith,
      omega arith,
      omega arith,
    ),
    rw append_assoc,
    omega arith,
    omega arith,
    omega arith,
    inr (inl e),
  )

  rebuild_left_right :
      (k : K) (v : V) (lk : K) (lv : V) (ll : Tree K V)
      → (mk : K) (mv : V) (ml mr : Tree K V) (ms mh ls lh : ℕ) (r : Tree K V)
      → IsAvl (node lk lv ll (node mk mv ml mr ms mh) ls lh)
      → IsAvl r
      → lh < 100
      → height r < 100
      → ls + size r < u32_max
      → lh ≡ height r + 2
      → height ll < mh
      → (let l = node lk lv ll (node mk mv ml mr ms mh) ls lh in Rebuilt k v l r (rebuild k v l r))
  unfolding rebuild rotate_left rotate_right
  rebuild_left_right k v lk lv ll mk mv ml mr ms mh ls lh r
        (all, (aml, amr, ems, emh, dml, dmr, mfits), es, eh, dl, dr, fits) ar hl hr hs e lean =
      let m = node mk mv ml mr ms mh in
      (
        joined mk mv (joined lk lv ll ml) (joined k v mr r),
        rw (
          make_node_lem k v (node lk lv ll m ls lh) r (omega arith) (omega arith) hs,
          balance_left_right k v (node lk lv ll m ls lh) r (1 + ls + size r) (1 + max lh (height r))
              (omega arith) (leans_right lk lv ll m ls lh lean),
          make_node_lem lk lv ll ml (omega arith) (omega arith) (omega arith),
          make_node_lem mk mv (joined lk lv ll ml) mr (omega arith) (omega arith) (omega arith),
          make_node_lem k v (joined mk mv (joined lk lv ll ml) mr) r (omega arith) (omega arith)
              (omega arith),
          make_node_lem k v mr r (omega arith) (omega arith) (omega arith),
          make_node_lem mk mv (joined lk lv ll ml) (joined k v mr r) (omega arith) (omega arith)
              (omega arith),
        ),
        (
          (all, aml, refl, refl, omega arith, omega arith, omega arith),
          (amr, ar, refl, refl, omega arith, omega arith, omega arith),
          refl,
          refl,
          omega arith,
          omega arith,
          omega arith,
        ),
        simp append_assoc,
        omega arith,
        omega arith,
        omega arith,
        inr (inl e),
      )

  rebuild_right :
      (k : K) (v : V) (l : Tree K V) (rk : K) (rv : V) (rl rr : Tree K V) (rs rh : ℕ)
      → IsAvl l
      → IsAvl (node rk rv rl rr rs rh)
      → height l < 100
      → rh < 100
      → size l + rs < u32_max
      → rh ≡ height l + 2
      → height rl ≤ height rr
      → Rebuilt k v l (node rk rv rl rr rs rh) (rebuild k v l (node rk rv rl rr rs rh))
  unfolding rebuild rotate_left
  rebuild_right k v l rk rv rl rr rs rh al (arl, arr, es, eh, dl, dr, fits) hl hr hs e lean = (
    joined rk rv (joined k v l rl) rr,
    rw (
      make_node_lem k v l (node rk rv rl rr rs rh) (omega arith) (omega arith) hs,
      balance_right k v l (node rk rv rl rr rs rh) (1 + size l + rs) (1 + max (height l) rh)
          (omega arith) (not_leans_left rk rv rl rr rs rh lean),
      make_node_lem k v l rl (omega arith) (omega arith) (omega arith),
      make_node_lem rk rv (joined k v l rl) rr (omega arith) (omega arith) (omega arith),
    ),
    (
      (al, arl, refl, refl, omega arith, omega arith, omega arith),
      arr,
      refl,
      refl,
      omega arith,
      omega arith,
      omega arith,
    ),
    rw append_assoc,
    omega arith,
    omega arith,
    omega arith,
    inr (inr e),
  )

  rebuild_right_left :
      (k : K) (v : V) (l : Tree K V) (rk : K) (rv : V)
      → (mk : K) (mv : V) (ml mr : Tree K V) (ms mh : ℕ) (rr : Tree K V) (rs rh : ℕ) → IsAvl l
      → IsAvl (node rk rv (node mk mv ml mr ms mh) rr rs rh)
      → height l < 100
      → rh < 100
      → size l + rs < u32_max
      → rh ≡ height l + 2
      → height rr < mh
      → (let r = node rk rv (node mk mv ml mr ms mh) rr rs rh in Rebuilt k v l r (rebuild k v l r))
  unfolding rebuild rotate_left rotate_right
  rebuild_right_left k v l rk rv mk mv ml mr ms mh rr rs rh al
        ((aml, amr, ems, emh, dml, dmr, mfits), arr, es, eh, dl, dr, fits) hl hr hs e lean =
      let m = node mk mv ml mr ms mh in
      (
        joined mk mv (joined k v l ml) (joined rk rv mr rr),
        rw (
          make_node_lem k v l (node rk rv m rr rs rh) (omega arith) (omega arith) hs,
          balance_right_left k v l (node rk rv m rr rs rh) (1 + size l + rs) (1 + max (height l) rh)
              (omega arith) (leans_left rk rv m rr rs rh lean),
          make_node_lem rk rv mr rr (omega arith) (omega arith) (omega arith),
          make_node_lem mk mv ml (joined rk rv mr rr) (omega arith) (omega arith) (omega arith),
          make_node_lem k v l (joined mk mv ml (joined rk rv mr rr)) (omega arith) (omega arith)
              (omega arith),
          make_node_lem k v l ml (omega arith) (omega arith) (omega arith),
          make_node_lem mk mv (joined k v l ml) (joined rk rv mr rr) (omega arith) (omega arith)
              (omega arith),
        ),
        (
          (al, aml, refl, refl, omega arith, omega arith, omega arith),
          (amr, arr, refl, refl, omega arith, omega arith, omega arith),
          refl,
          refl,
          omega arith,
          omega arith,
          omega arith,
        ),
        simp append_assoc,
        omega arith,
        omega arith,
        omega arith,
        inr (inr e),
      )

  -- A left child two levels higher, or a right one.
  rebuild_high_left :
      (k : K) (v : V) (l r : Tree K V)
      → IsAvl l
      → IsAvl r
      → height l < 100
      → height r < 100
      → size l + size r < u32_max
      → height l ≡ height r + 2
      → Rebuilt k v l r (rebuild k v l r)
  rebuild_high_left k v null r al ar hl hr hs e = absurd (omega arith)
  rebuild_high_left k v (node lk lv ll null ls lh) r al ar hl hr hs e =
      rebuild_left k v lk lv ll null ls lh r al ar hl hr hs e (omega arith)
  rebuild_high_left k v (node lk lv ll (node mk mv ml mr ms mh) ls lh) r al ar hl hr hs e =
      elim (split (height ll) mh) [
        | inl right ↦
            rebuild_left_right k v lk lv ll mk mv ml mr ms mh ls lh r al ar hl hr hs e right
        | inr left ↦
            rebuild_left k v lk lv ll (node mk mv ml mr ms mh) ls lh r al ar hl hr hs e left
      ]
    where
      split : (a b : ℕ) → (a < b) ⊎ (b ≤ a)
      split a b = omega arith

  rebuild_high_right :
      (k : K) (v : V) (l r : Tree K V)
      → IsAvl l
      → IsAvl r
      → height l < 100
      → height r < 100
      → size l + size r < u32_max
      → height r ≡ height l + 2
      → Rebuilt k v l r (rebuild k v l r)
  rebuild_high_right k v l null al ar hl hr hs e = absurd (omega arith)
  rebuild_high_right k v l (node rk rv null rr rs rh) al ar hl hr hs e =
      rebuild_right k v l rk rv null rr rs rh al ar hl hr hs e (omega arith)
  rebuild_high_right k v l (node rk rv (node mk mv ml mr ms mh) rr rs rh) al ar hl hr hs e =
      elim (split (height rr) mh) [
        | inl left ↦ rebuild_right_left k v l rk rv mk mv ml mr ms mh rr rs rh al ar hl hr hs e left
        | inr right ↦
            rebuild_right k v l rk rv (node mk mv ml mr ms mh) rr rs rh al ar hl hr hs e right
      ]
    where
      split : (a b : ℕ) → (a < b) ⊎ (b ≤ a)
      split a b = omega arith

  -- Over two balanced subtrees with right cached fields, whose heights differ by two at most and
  -- whose sizes sum to less than 2 ^ 32 - 1, `Balance(MakeNode(...))` returns a balanced tree of
  -- the same entries in order, whose height is that of the higher subtree or one more, and is one
  -- more where the heights differ by one at most.
  pub rebuild_lem :
      (k : K) (v : V) (l r : Tree K V)
      → IsAvl l
      → IsAvl r
      → size l + size r < u32_max
      → height l ≤ height r + 2
      → height r ≤ height l + 2
      → Rebuilt k v l r (rebuild k v l r)
  rebuild_lem k v l r al ar hs dl dr =
      let hl : height l < 100 = omega (arith, height_bound l al) in
      let hr : height r < 100 = omega (arith, height_bound r ar) in
      elim (split (height l) (height r) dl dr) [
        | inl left ↦ rebuild_high_left k v l r al ar hl hr hs left
        | inr (inl right) ↦ rebuild_high_right k v l r al ar hl hr hs right
        | inr (inr (p, q)) ↦ rebuild_even k v l r al ar hl hr hs p q
      ]
    where
      split :
          (a b : ℕ)
          → a ≤ b + 2
          → b ≤ a + 2
          → (a ≡ b + 2) ⊎ ((b ≡ a + 2) ⊎ ((a ≤ b + 1) × (b ≤ a + 1)))
      split a b p q = ground arith
