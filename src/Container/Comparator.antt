-- ===== src/Container/Comparator.antt =====
-- The template parameter `Comp`: a function object that the containers call, and what the
-- standard asks of it (a strict weak ordering).
use cpp_util.Util.{◌≡◌, Bool, true, false, arith, ltb, ℕ}

pub record Comparator {ℓ} (K : Type ℓ) : Type ℓ where
  pub less : K → K → Bool
  pub irrefl : (a : K) → less a a ≡ false
  pub trans : (a b c : K) → less a b ≡ true → less b c ≡ true → less a c ≡ true
  -- Incomparability is transitive, in its short form.
  pub cotrans : (a b c : K) → less a b ≡ false → less b c ≡ false → less a c ≡ false

module _ {ℓ} {K : Type ℓ} ⦃c : Comparator K⦄ where
  infix 50 ◌≺◌
  abbrev pub ◌≺◌ : K → K → Type 0
  a ≺ b = c.less a b ≡ true

  -- Neither key is less than the other.
  abbrev pub Equiv : K → K → Type 0
  Equiv a b = (c.less a b ≡ false) × (c.less b a ≡ false)

  pub less_asymm : (a b : K) → a ≺ b → c.less b a ≡ false
  less_asymm a b h = ground (arith, c.trans a b a h, c.irrefl a)

  -- A key between two incomparable ones is on the same side of both.
  pub less_of_less_of_not : (a b d : K) → a ≺ b → c.less d b ≡ false → a ≺ d
  less_of_less_of_not a b d h k = ground (arith, c.cotrans a d b)

  pub less_of_not_of_less : (a b d : K) → c.less b a ≡ false → b ≺ d → a ≺ d
  less_of_not_of_less a b d h k = ground (arith, c.cotrans b a d)

  -- Equivalent keys compare alike.
  pub less-Equiv_left : (p k x : K) → Equiv p k → c.less p x ≡ c.less k x
  less-Equiv_left p k x e = ground (arith, c.cotrans p k x e.0, c.cotrans k p x e.1)

  pub less-Equiv_right : (p k x : K) → Equiv p k → c.less x p ≡ c.less x k
  less-Equiv_right p k x e = ground (
    arith,
    λ (h : c.less x k ≡ false). c.cotrans x k p h e.1,
    λ (h : c.less x p ≡ false). c.cotrans x p k h e.0,
  )

pub ltb_irrefl : (a : ℕ) → ltb a a ≡ false
ltb_irrefl a = ground arith

pub ltb_trans : (a b c : ℕ) → ltb a b ≡ true → ltb b c ≡ true → ltb a c ≡ true
ltb_trans a b c h k = ground arith

pub ltb_cotrans : (a b c : ℕ) → ltb a b ≡ false → ltb b c ≡ false → ltb a c ≡ false
ltb_cotrans a b c h k = ground arith

-- `std::less` on unsigned integers.
instance abbrev pub nat_less : Comparator ℕ
nat_less = record { less = ltb; irrefl = ltb_irrefl; trans = ltb_trans; cotrans = ltb_cotrans }
