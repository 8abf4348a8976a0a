-- ===== src/Container/Assoc/Sorted.antt =====
-- Sorted lists of entries, taken apart and put together at a key.
use cpp_util.Util.{◌≡◌, false, List, [], ◌∷◌, ◌++◌, All, All-append, All-left, All-right, All-imp}
use cpp_util.Container.Comparator.{Comparator, ◌≺◌}
use cpp_util.Container.Assoc.{IsSorted, Before, After}

module _ {ℓ κ} {K : Type ℓ} {V : Type κ} ⦃c : Comparator K⦄ where
  pub IsSorted-left : (xs ys : List (K × V)) → IsSorted (xs ++ ys) → IsSorted xs
  IsSorted-left [] ys h = tt
  IsSorted-left (x ∷ xs) ys h = (All-left (After x.0) xs ys h.0, IsSorted-left xs ys h.1)

  pub IsSorted-right : (xs ys : List (K × V)) → IsSorted (xs ++ ys) → IsSorted ys
  IsSorted-right [] ys h = h
  IsSorted-right (x ∷ xs) ys h = IsSorted-right xs ys h.1

  -- In a sorted list all that stands before an entry is below it.
  pub All-Before :
      (xs ys : List (K × V)) (e : K × V) → IsSorted (xs ++ e ∷ ys) → All (Before e.0) xs
  All-Before [] ys e h = tt
  All-Before (x ∷ xs) ys e h = ((All-right (After x.0) xs (e ∷ ys) h.0).0, All-Before xs ys e h.1)

  pub All-Before_le :
      (k k' : K)
      → c.less k' k ≡ false
      → (xs : List (K × V)) → All (Before k) xs
      → All (Before k') xs
  All-Before_le k k' h xs a = All-imp (Before k) (Before k') (λ e p. grind_step e p) xs a
    where
      grind_step : (e : K × V) → Before k e → Before k' e
      grind_step e p = cpp_util.Container.Comparator.less_of_less_of_not e.0 k k' p h

  pub All-After_le :
      (k k' : K) → c.less k k' ≡ false → (xs : List (K × V)) → All (After k) xs → All (After k') xs
  All-After_le k k' h xs a = All-imp (After k) (After k') (λ e p. step e p) xs a
    where
      step : (e : K × V) → After k e → After k' e
      step e p = cpp_util.Container.Comparator.less_of_not_of_less k' k e.0 h p

  -- Two sorted lists on the two sides of a key make one.
  pub IsSorted-append :
      (k : K) (xs ys : List (K × V))
      → IsSorted xs
      → All (Before k) xs
      → IsSorted ys
      → All (After k) ys
      → IsSorted (xs ++ ys)
  IsSorted-append k [] ys hx bx hy ay = hy
  IsSorted-append k (x ∷ xs) ys hx bx hy ay = (
    All-append (After x.0) xs ys hx.0
        (All-imp (After k) (After x.0) (λ e p. c.trans x.0 k e.0 bx.0 p) ys ay),
    IsSorted-append k xs ys hx.1 bx.1 hy ay,
  )

  -- And with an entry of that key between them.
  pub IsSorted-insert :
      (k : K) (v : V) (xs ys : List (K × V))
      → IsSorted xs
      → All (Before k) xs
      → IsSorted ys
      → All (After k) ys
      → IsSorted (xs ++ (k, v) ∷ ys)
  IsSorted-insert k v [] ys hx bx hy ay = (ay, hy)
  IsSorted-insert k v (x ∷ xs) ys hx bx hy ay = (
    All-append (After x.0) xs ((k, v) ∷ ys) hx.0
        (bx.0, All-imp (After k) (After x.0) (λ e p. c.trans x.0 k e.0 bx.0 p) ys ay),
    IsSorted-insert k v xs ys hx.1 bx.1 hy ay,
  )
