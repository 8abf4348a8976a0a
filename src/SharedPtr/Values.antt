-- ===== src/SharedPtr/Values.antt =====
-- What variables hold after a step.
use cpp_util.Util.{
  ℕ, zero, suc, ◌≡◌, refl, sym, ap, arith, true, false, Option, none, some, List, [], ◌∷◌, ◌==◌,
  get_elem?, set,
}
use mathlib.Core.Option.{some-injective}
use cpp_util.SharedPtr.{Place, variable, member, is_same}

pub set_twice : (ps : List (Option ℕ)) (x : ℕ) (p q : Option ℕ) → set (set ps x p) x q ≡ set ps x q
set_twice [] x p q = refl
set_twice (r ∷ ps) zero p q = refl
set_twice (r ∷ ps) (suc x) p q = ap (◌∷◌ r) (set_twice ps x p q)

set_same : (ps : List (Option ℕ)) (x : ℕ) (p : Option ℕ) → get_elem? ps x ≡ some p → set ps x p ≡ ps
set_same [] x p at = refl
set_same (r ∷ ps) zero p at = ap (λ q. q ∷ ps) (sym (some-injective r p at))
set_same (r ∷ ps) (suc x) p at = ap (◌∷◌ r) (set_same ps x p at)

-- The variables once what stands at a place has been moved out.
abbrev pub without : List (Option ℕ) → Place → List (Option ℕ)
without ps (variable x) = set ps x none
without ps (member i k) = ps

-- The variables once others have been moved into members.
abbrev pub without_all : List (Option ℕ) → List ℕ → List (Option ℕ)
without_all ps [] = ps
without_all ps (x ∷ xs) = without_all (set ps x none) xs

-- The variables once `p` has been moved from `y` to `x`.
abbrev pub moved_to : List (Option ℕ) → ℕ → Place → Option ℕ → List (Option ℕ)
moved_to ps x y p = elim (is_same x y) [ true ↦ ps | false ↦ without (set ps x p) y ]

-- A copy of a variable to itself changes nothing.
pub set-is_same :
    (ps : List (Option ℕ)) (x z : ℕ) (p : Option ℕ)
    → get_elem? ps z ≡ some p
    → (x == z) ≡ true
    → ps ≡ set ps x p
set-is_same ps x z p at same =
    let x_is_z : x ≡ z = ground arith in rw x_is_z (sym (set_same ps z p at))
