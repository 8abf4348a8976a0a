-- ===== src/ImmutableBlockTree/Balance.antt =====
-- `MakeBalanced` and what it is of, by the difference of the heights.
use cpp_util.Util.{ℕ, ◌+◌, ◌≤◌, ◌<◌, max, ◌≡◌, refl, ◌++◌, arith, ◌⊎◌, inl, inr, append_assoc}
use cpp_util.Container.Comparator.{Comparator}
use cpp_util.Container.Blocks.{Blocks}
use cpp_util.Container.Store.{u32_max}
use cpp_util.Container.Outcome.{Outcome, ok}
use cpp_util.ImmutableBlockTree.{Tree, null, node, height, size, rotate_left, rotate_right, rebuild}
use cpp_util.ImmutableBlockTree.Avl.{IsAvl, entries, height_bound}
use cpp_util.ImmutableBlockTree.Rotate.{
  joined, make_node_lem, balance_even, balance_left, balance_left_right, balance_right,
  balance_right_left, leans_right, leans_left, not_leans_right, not_leans_left,
}

module _ {ℓ} {K V : Type ℓ} ⦃c : Comparator K⦄ (S : Blocks K V) where
  open S use {B}

  -- What a rebuilt node is.
  abbrev pub Rebuilt : B → Tree B → Tree B → Outcome (Tree B) → Type ℓ
  Rebuilt b l r m =
      (t : Tree B) × (m ≡ ok t)
      × IsAvl S t
      × (entries S t ≡ entries S l ++ (S.view b ++ entries S r))
      × (size t ≡ S.count b + size l + size r)
      × (height t ≤ 1 + max (height l) (height r))
      × (max (height l) (height r) ≤ height t)
      × ((height t ≡ 1 + max (height l) (height r))
          ⊎ ((height l ≡ height r + 2) ⊎ (height r ≡ height l + 2)))

  rebuild_even :
      (b : B) (l r : Tree B)
      → S.IsBlock b
      → IsAvl S l
      → IsAvl S r
      → height l < 100
      → height r < 100
      → S.count b + size l + size r ≤ u32_max
      → height l ≤ height r + 1
      → height r ≤ height l + 1
      → Rebuilt b l r (rebuild S b l r)
  unfolding rebuild
  rebuild_even b l r kb al ar hl hr hs dl dr = (
    joined S b l r,
    rw (make_node_lem S b l r (omega arith) (omega arith) hs) (balance_even S b l r _ _ dl dr),
    (al, ar, refl, refl, dl, dr, omega arith, kb),
    refl,
    refl,
    omega arith,
    omega arith,
    inl refl,
  )

  rebuild_left :
      (b : B) (lb : B) (ll lr : Tree B) (ls lh : ℕ) (r : Tree B)
      → S.IsBlock b
      → IsAvl S (node lb ll lr ls lh)
      → IsAvl S r
      → lh < 100
      → height r < 100
      → S.count b + ls + size r ≤ u32_max
      → lh ≡ height r + 2
      → height lr ≤ height ll
      → Rebuilt b (node lb ll lr ls lh) r (rebuild S b (node lb ll lr ls lh) r)
  unfolding rebuild rotate_right
  rebuild_left b lb ll lr ls lh r kb (all, alr, es, eh, dl, dr, fits, kl) ar hl hr hs e lean = (
    joined S lb ll (joined S b lr r),
    rw (
      make_node_lem S b (node lb ll lr ls lh) r (omega arith) (omega arith) hs,
      balance_left S b (node lb ll lr ls lh) r (S.count b + ls + size r) (1 + max lh (height r))
          (omega arith) (not_leans_right S lb ll lr ls lh lean),
      make_node_lem S b lr r (omega arith) (omega arith) (omega arith),
      make_node_lem S lb ll (joined S b lr r) (omega arith) (omega arith) (omega arith),
    ),
    (
      all,
      (alr, ar, refl, refl, omega arith, omega arith, omega arith, kb),
      refl,
      refl,
      omega arith,
      omega arith,
      omega arith,
      kl,
    ),
    simp append_assoc,
    omega arith,
    omega arith,
    omega arith,
    inr (inl e),
  )

  rebuild_left_right :
      (b : B) (lb : B) (ll : Tree B)
      → (mb : B) (ml mr : Tree B) (ms mh ls lh : ℕ) (r : Tree B) → S.IsBlock b
      → IsAvl S (node lb ll (node mb ml mr ms mh) ls lh)
      → IsAvl S r
      → lh < 100
      → height r < 100
      → S.count b + ls + size r ≤ u32_max
      → lh ≡ height r + 2
      → height ll < mh
      → (let l = node lb ll (node mb ml mr ms mh) ls lh in Rebuilt b l r (rebuild S b l r))
  unfolding rebuild rotate_left rotate_right
  rebuild_left_right b lb ll mb ml mr ms mh ls lh r kb
        (all, (aml, amr, ems, emh, dml, dmr, mfits, km), es, eh, dl, dr, fits, kl) ar hl hr hs e
        lean =
      let m = node mb ml mr ms mh in
      (
        joined S mb (joined S lb ll ml) (joined S b mr r),
        rw (
          make_node_lem S b (node lb ll m ls lh) r (omega arith) (omega arith) hs,
          balance_left_right S b (node lb ll m ls lh) r (S.count b + ls + size r)
              (1 + max lh (height r)) (omega arith) (leans_right S lb ll m ls lh lean),
          make_node_lem S lb ll ml (omega arith) (omega arith) (omega arith),
          make_node_lem S mb (joined S lb ll ml) mr (omega arith) (omega arith) (omega arith),
          make_node_lem S b (joined S mb (joined S lb ll ml) mr) r (omega arith) (omega arith)
              (omega arith),
          make_node_lem S b mr r (omega arith) (omega arith) (omega arith),
          make_node_lem S mb (joined S lb ll ml) (joined S b mr r) (omega arith) (omega arith)
              (omega arith),
        ),
        (
          (all, aml, refl, refl, omega arith, omega arith, omega arith, kl),
          (amr, ar, refl, refl, omega arith, omega arith, omega arith, kb),
          refl,
          refl,
          omega arith,
          omega arith,
          omega arith,
          km,
        ),
        simp append_assoc,
        omega arith,
        omega arith,
        omega arith,
        inr (inl e),
      )

  rebuild_right :
      (b : B) (l : Tree B) (rb : B) (rl rr : Tree B) (rs rh : ℕ)
      → S.IsBlock b
      → IsAvl S l
      → IsAvl S (node rb rl rr rs rh)
      → height l < 100
      → rh < 100
      → S.count b + size l + rs ≤ u32_max
      → rh ≡ height l + 2
      → height rl ≤ height rr
      → Rebuilt b l (node rb rl rr rs rh) (rebuild S b l (node rb rl rr rs rh))
  unfolding rebuild rotate_left
  rebuild_right b l rb rl rr rs rh kb al (arl, arr, es, eh, dl, dr, fits, kr) hl hr hs e lean = (
    joined S rb (joined S b l rl) rr,
    rw (
      make_node_lem S b l (node rb rl rr rs rh) (omega arith) (omega arith) hs,
      balance_right S b l (node rb rl rr rs rh) (S.count b + size l + rs) (1 + max (height l) rh)
          (omega arith) (not_leans_left S rb rl rr rs rh lean),
      make_node_lem S b l rl (omega arith) (omega arith) (omega arith),
      make_node_lem S rb (joined S b l rl) rr (omega arith) (omega arith) (omega arith),
    ),
    (
      (al, arl, refl, refl, omega arith, omega arith, omega arith, kb),
      arr,
      refl,
      refl,
      omega arith,
      omega arith,
      omega arith,
      kr,
    ),
    simp append_assoc,
    omega arith,
    omega arith,
    omega arith,
    inr (inr e),
  )

  rebuild_right_left :
      (b : B) (l : Tree B) (rb : B)
      → (mb : B) (ml mr : Tree B) (ms mh : ℕ) (rr : Tree B) (rs rh : ℕ) → S.IsBlock b
      → IsAvl S l
      → IsAvl S (node rb (node mb ml mr ms mh) rr rs rh)
      → height l < 100
      → rh < 100
      → S.count b + size l + rs ≤ u32_max
      → rh ≡ height l + 2
      → height rr < mh
      → (let r = node rb (node mb ml mr ms mh) rr rs rh in Rebuilt b l r (rebuild S b l r))
  unfolding rebuild rotate_left rotate_right
  rebuild_right_left b l rb mb ml mr ms mh rr rs rh kb al
        ((aml, amr, ems, emh, dml, dmr, mfits, km), arr, es, eh, dl, dr, fits, kr) hl hr hs e lean =
      let m = node mb ml mr ms mh in
      (
        joined S mb (joined S b l ml) (joined S rb mr rr),
        rw (
          make_node_lem S b l (node rb m rr rs rh) (omega arith) (omega arith) hs,
          balance_right_left S b l (node rb m rr rs rh) (S.count b + size l + rs)
              (1 + max (height l) rh) (omega arith) (leans_left S rb m rr rs rh lean),
          make_node_lem S rb mr rr (omega arith) (omega arith) (omega arith),
          make_node_lem S mb ml (joined S rb mr rr) (omega arith) (omega arith) (omega arith),
          make_node_lem S b l (joined S mb ml (joined S rb mr rr)) (omega arith) (omega arith)
              (omega arith),
          make_node_lem S b l ml (omega arith) (omega arith) (omega arith),
          make_node_lem S mb (joined S b l ml) (joined S rb mr rr) (omega arith) (omega arith)
              (omega arith),
        ),
        (
          (al, aml, refl, refl, omega arith, omega arith, omega arith, kb),
          (amr, arr, refl, refl, omega arith, omega arith, omega arith, kr),
          refl,
          refl,
          omega arith,
          omega arith,
          omega arith,
          km,
        ),
        simp append_assoc,
        omega arith,
        omega arith,
        omega arith,
        inr (inr e),
      )

  -- A left child two levels higher, or a right one.
  rebuild_high_left :
      (b : B) (l r : Tree B)
      → S.IsBlock b
      → IsAvl S l
      → IsAvl S r
      → height l < 100
      → height r < 100
      → S.count b + size l + size r ≤ u32_max
      → height l ≡ height r + 2
      → Rebuilt b l r (rebuild S b l r)
  rebuild_high_left b null r kb al ar hl hr hs e = absurd (omega arith)
  rebuild_high_left b (node lb ll null ls lh) r kb al ar hl hr hs e =
      rebuild_left b lb ll null ls lh r kb al ar hl hr hs e (omega arith)
  rebuild_high_left b (node lb ll (node mb ml mr ms mh) ls lh) r kb al ar hl hr hs e =
      elim (split (height ll) mh) [
        | inl right ↦ rebuild_left_right b lb ll mb ml mr ms mh ls lh r kb al ar hl hr hs e right
        | inr left ↦ rebuild_left b lb ll (node mb ml mr ms mh) ls lh r kb al ar hl hr hs e left
      ]
    where
      split : (a b : ℕ) → (a < b) ⊎ (b ≤ a)
      split a b = omega arith

  rebuild_high_right :
      (b : B) (l r : Tree B)
      → S.IsBlock b
      → IsAvl S l
      → IsAvl S r
      → height l < 100
      → height r < 100
      → S.count b + size l + size r ≤ u32_max
      → height r ≡ height l + 2
      → Rebuilt b l r (rebuild S b l r)
  rebuild_high_right b l null kb al ar hl hr hs e = absurd (omega arith)
  rebuild_high_right b l (node rb null rr rs rh) kb al ar hl hr hs e =
      rebuild_right b l rb null rr rs rh kb al ar hl hr hs e (omega arith)
  rebuild_high_right b l (node rb (node mb ml mr ms mh) rr rs rh) kb al ar hl hr hs e =
      elim (split (height rr) mh) [
        | inl left ↦ rebuild_right_left b l rb mb ml mr ms mh rr rs rh kb al ar hl hr hs e left
        | inr right ↦ rebuild_right b l rb (node mb ml mr ms mh) rr rs rh kb al ar hl hr hs e right
      ]
    where
      split : (a b : ℕ) → (a < b) ⊎ (b ≤ a)
      split a b = omega arith

  -- Over balanced subtrees whose heights differ by two at most.
  pub rebuild_lem :
      (b : B) (l r : Tree B)
      → S.IsBlock b
      → IsAvl S l
      → IsAvl S r
      → S.count b + size l + size r ≤ u32_max
      → height l ≤ height r + 2
      → height r ≤ height l + 2
      → Rebuilt b l r (rebuild S b l r)
  rebuild_lem b l r kb al ar hs dl dr =
      let hl : height l < 100 = omega (arith, height_bound S l al) in
      let hr : height r < 100 = omega (arith, height_bound S r ar) in
      elim (split (height l) (height r) dl dr) [
        | inl left ↦ rebuild_high_left b l r kb al ar hl hr hs left
        | inr (inl right) ↦ rebuild_high_right b l r kb al ar hl hr hs right
        | inr (inr (p, q)) ↦ rebuild_even b l r kb al ar hl hr hs p q
      ]
    where
      split :
          (a b : ℕ)
          → a ≤ b + 2
          → b ≤ a + 2
          → (a ≡ b + 2) ⊎ ((b ≡ a + 2) ⊎ ((a ≤ b + 1) × (b ≤ a + 1)))
      split a b p q = ground arith
