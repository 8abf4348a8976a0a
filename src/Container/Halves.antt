-- ===== src/Container/Halves.antt =====
-- Halves of a range, and the least height of a binary tree.
use cpp_util.Util.{
  ℕ, zero, suc, ◌+◌, ◌*◌, ◌≤◌, ◌<◌, ◌≡◌, refl, List, [], ◌∷◌, ◌++◌, arith, ap, inl, inr, length,
  append_assoc, ◌⊎◌,
}

unfoldable pub pow2 : ℕ → ℕ
pow2 zero = 1
pow2 (suc h) = 2 * pow2 h

pow2_pos : (h : ℕ) → 1 ≤ pow2 h
unfolding pow2
pow2_pos zero = omega arith
pow2_pos (suc h) = omega (arith, pow2_pos h)

pow2_mono : (a b : ℕ) → a ≤ b → pow2 a ≤ pow2 b
unfolding pow2
pow2_mono a zero h = let e : a ≡ zero = omega arith in rw e (omega arith)
pow2_mono a (suc b) h = elim (cases a b h) [
  | inl below ↦ omega (arith, pow2_mono a b below)
  | inr same ↦ rw same (omega arith)
]
  where
    cases : (a b : ℕ) → a ≤ suc b → (a ≤ b) ⊎ (a ≡ suc b)
    cases a b q = omega arith

le_of_pow2 : (a b : ℕ) → pow2 a < 2 * pow2 b → a ≤ b
le_of_pow2 a b h = elim (cases a b) [
  | inl le ↦ le
  | inr lt ↦ absurd (unfold pow2 in omega (arith, pow2_mono (suc b) a lt))
]
  where
    cases : (a b : ℕ) → (a ≤ b) ⊎ (suc b ≤ a)
    cases a b = omega arith

-- `h` is the least height that a binary tree of `n` entries can have.
abbrev pub IsLeastHeight : ℕ → ℕ → Type 0
IsLeastHeight n h = (n < pow2 h) × (pow2 h ≤ 2 * n + 1)

-- Two halves of a range, and the range.
double_le : (a b h : ℕ) → b ≤ a → a ≤ b + 1 → pow2 h ≤ 2 * a + 1 → 2 * pow2 h ≤ 2 * (1 + a + b) + 1
unfolding pow2
double_le a b zero p q r = omega arith
double_le a b (suc h) p q r = omega arith

pub halves :
    (a b h k : ℕ)
    → b ≤ a
    → a ≤ b + 1
    → IsLeastHeight a h
    → IsLeastHeight b k
    → (h ≤ suc k) × (k ≤ h) × IsLeastHeight (1 + a + b) (suc h)
halves a b h k p q (ah, ha) (bk, kb) = (
  le_of_pow2 h (suc k) (unfold pow2 in omega (arith, pow2_pos k)),
  le_of_pow2 k h (omega arith),
  (unfold pow2 in omega arith, unfold pow2 in double_le a b h p q ha),
)

-- A list is taken apart at an index.
pub split_at {ℓ} :
    {A : Type ℓ} (es : List A) (i : ℕ)
    → i < length es
    → (xs : List A) × (x : A) × (ys : List A) × (es ≡ xs ++ x ∷ ys) × (length xs ≡ i)
split_at [] i h = elim h [ ]
split_at (e ∷ es) zero h = ([], e, es, refl, refl)
split_at (e ∷ es) (suc i) h =
    let (xs, x, ys, same, count) = split_at es i (omega arith) in
    (e ∷ xs, x, ys, ap (◌∷◌ e) same, omega arith)

pub regroup {ℓ} :
    {A : Type ℓ} (es pre xs : List A) (x : A) (ys post : List A)
    → es ≡ pre ++ ((xs ++ x ∷ ys) ++ post)
    → es ≡ (pre ++ xs) ++ x ∷ (ys ++ post)
regroup es pre xs x ys post e = rw e (simp append_assoc)
