-- ===== src/Container/Visit.antt =====
-- A walk over a list that a callback can stop.
use cpp_util.Util.{◌≡◌, refl, Bool, true, false, List, [], ◌∷◌, ◌++◌, Bool-cases, inl, inr}

-- The walk over a list, for comparison.
unfoldable pub visit_until {ℓ μ} :
    {E : Type ℓ} {S : Type μ} → (S → E → S × Bool) → List E → S → S × Bool
visit_until f [] st = (st, true)
visit_until f (e ∷ es) st =
    let (s1, more) = f st e in elim more [ true ↦ visit_until f es s1 | false ↦ (s1, false) ]

-- Goes on where a walk was not stopped.
abbrev pub continue {μ} : {S : Type μ} → S × Bool → (S → S × Bool) → S × Bool
continue (st, true) f = f st
continue (st, false) f = (st, false)

pub visit_until-append {ℓ μ} :
    {E : Type ℓ} {S : Type μ} (f : S → E → S × Bool) (xs ys : List E) (st : S)
    → visit_until f (xs ++ ys) st ≡ continue (visit_until f xs st) (visit_until f ys)
unfolding visit_until
visit_until-append f [] ys st = refl
visit_until-append f (x ∷ xs) ys st = elim (Bool-cases (f st x).1) [
  | inl e ↦ rw (e, visit_until) (visit_until-append f xs ys (f st x).0)
  | inr e ↦ rw (e, visit_until) refl
]
