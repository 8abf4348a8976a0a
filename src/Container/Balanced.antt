-- ===== src/Container/Balanced.antt =====
-- How many entries a tree of some height has at least, where the heights of siblings differ by one at
-- most.
use cpp_util.Util.{ℕ, zero, suc, ◌+◌, ◌*◌, ◌≤◌, max, ◌≡◌, arith, ◌⊎◌, inl, inr, refl}

-- The least number of entries of a tree of height h, plus one, is at least 2 ^ (h / 2).
unfoldable pub doubled : ℕ → ℕ
doubled zero = 1
doubled (suc zero) = 1
doubled (suc (suc h)) = 2 * doubled h

doubled_mono : (h : ℕ) → (doubled h ≤ doubled (suc h)) × (doubled (suc h) ≤ 2 * doubled h)
unfolding doubled
doubled_mono zero = omega arith
doubled_mono (suc h) = omega (arith, doubled_mono h)

pub doubled_le : (h k : ℕ) → h ≤ k → doubled h ≤ doubled k
doubled_le h zero p = let e : h ≡ zero = omega arith in rw e (omega arith)
doubled_le h (suc k) p = elim (le_cases h k p) [
  | inl below ↦ omega (arith, doubled_le h k below, doubled_mono k)
  | inr same ↦ rw same (omega arith)
]
  where
    le_cases : (a b : ℕ) → a ≤ suc b → (a ≤ b) ⊎ (a ≡ suc b)
    le_cases a b q = omega arith

-- Siblings whose heights differ by one at most.
pub doubled_siblings :
    (a b : ℕ) → a ≤ b + 1 → b ≤ a + 1 → doubled (1 + max a b) ≤ doubled a + doubled b
doubled_siblings a b p q = elim (cases a b p q) [
  | inl same ↦
      let e : 1 + max a b ≡ suc b = omega arith in rw (e, same) (omega (arith, doubled_mono b))
  | inr (inl left) ↦
      let e : 1 + max a b ≡ suc (suc b) = omega arith in
      rw (e, left) (unfold doubled in omega (arith, doubled_mono b))
  | inr (inr right) ↦
      let e : 1 + max a b ≡ suc (suc a) = omega arith in
      rw (e, right) (unfold doubled in omega (arith, doubled_mono a))
]
  where
    cases : (a b : ℕ) → a ≤ b + 1 → b ≤ a + 1 → (a ≡ b) ⊎ ((a ≡ suc b) ⊎ (b ≡ suc a))
    cases a b p q = omega arith

-- With fewer than 2 ^ 32 entries no such tree is higher than 65.
pub height_of_size : (h n : ℕ) → doubled h ≤ n + 1 → n ≤ 4294967295 → h ≤ 65
height_of_size h n many fits = elim (cases h) [
  | inl low ↦ low
  | inr high ↦ absurd (omega (arith, doubled_le 66 h high, doubled_at))
]
  where
    cases : (n : ℕ) → (n ≤ 65) ⊎ (66 ≤ n)
    cases n = omega arith

    doubled_at : doubled 66 ≡ 8589934592
    doubled_at = unfold doubled in refl
