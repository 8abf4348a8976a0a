-- ===== src/Container/Assoc/Cutting.antt =====
-- The cut of a list at a key: what its parts are, and how it goes through an append.
use cpp_util.Util.{◌≡◌, refl, Option, none, some, List, [], ◌∷◌, ◌++◌, All, arith, append-nil}
use cpp_util.Container.Comparator.{
  Comparator, ◌≺◌, Equiv, less_asymm, less-Equiv_left, less-Equiv_right,
}
use cpp_util.Container.Assoc.{Before, cut}

module _ {ℓ κ} {K : Type ℓ} {V : Type κ} ⦃c : Comparator K⦄ where
  -- The middle of a list that was cut.
  abbrev pub entry : Option (K × V) → List (K × V) → List (K × V)
  entry none es = es
  entry (some e) es = e ∷ es

  abbrev pub IsHit : K → Option (K × V) → Type 0
  IsHit k none = Unit
  IsHit k (some e) = Equiv k e.0

  pub join-cut :
      (k : K) (es : List (K × V)) → (cut k es).below ++ entry (cut k es).here (cut k es).above ≡ es
  unfolding cut
  join-cut k [] = refl
  join-cut k (e ∷ es) = ground (arith, join-cut k es)

  pub below-Before : (k : K) (es : List (K × V)) → All (Before k) (cut k es).below
  unfolding cut
  below-Before k [] = tt
  below-Before k (e ∷ es) = ground (arith, below-Before k es)

  pub here-IsHit : (k : K) (es : List (K × V)) → IsHit k (cut k es).here
  unfolding cut
  here-IsHit k [] = tt
  here-IsHit k (e ∷ es) = ground (arith, here-IsHit k es)

  -- An entry above the key sends the cut to its left.
  pub cut-left :
      (k : K) (xs : List (K × V)) (e : K × V) (ys : List (K × V))
      → k ≺ e.0
      → cut k (xs ++ e ∷ ys) ≡ record {
        below = (cut k xs).below;
        here = (cut k xs).here;
        above = (cut k xs).above ++ e ∷ ys;
      }
  unfolding cut
  cut-left k [] e ys h = ground arith
  cut-left k (x ∷ xs) e ys h = ground (arith, cut-left k xs e ys h)

  -- What is all below the key is passed over.
  pub cut-right :
      (k : K) (xs ys : List (K × V))
      → All (Before k) xs
      → cut k (xs ++ ys) ≡ record {
        below = xs ++ (cut k ys).below;
        here = (cut k ys).here;
        above = (cut k ys).above;
      }
  unfolding cut
  cut-right k [] ys h = refl
  cut-right k (x ∷ xs) ys h = ground (arith, cut-right k xs ys h.1, less_asymm x.0 k h.0)

  -- An entry of an equivalent key is the one that is found.
  pub cut-here :
      (k : K) (e : K × V) (ys : List (K × V))
      → Equiv k e.0
      → cut k (e ∷ ys) ≡ record { below = []; here = some e; above = ys }
  unfolding cut
  cut-here k e ys h = ground arith

  -- The cut of a list with an entry in its middle, on each side of the key and at it.
  pub cut-past :
      (k : K) (xs : List (K × V)) (e : K × V) (ys : List (K × V))
      → All (Before k) xs
      → e.0 ≺ k
      → cut k (xs ++ e ∷ ys) ≡ record {
        below = xs ++ e ∷ (cut k ys).below;
        here = (cut k ys).here;
        above = (cut k ys).above;
      }
  cut-past k xs e ys h p = rw (cut-right k xs (e ∷ ys) h, cut-right k (e ∷ []) ys (p, tt)) refl

  pub cut-at :
      (k : K) (xs : List (K × V)) (e : K × V) (ys : List (K × V))
      → All (Before k) xs
      → Equiv k e.0
      → cut k (xs ++ e ∷ ys) ≡ record { below = xs; here = some e; above = ys }
  cut-at k xs e ys h p =
      rw (cut-right k xs (e ∷ ys) h, cut-here k e ys p)
        (λ i. record { below = append-nil xs i; here = some e; above = ys })

  pub cut-nil : (k : K) → cut {V = V} k [] ≡ record { below = []; here = none; above = [] }
  unfolding cut
  cut-nil k = refl

  -- Equivalent keys cut a list at the same place.
  pub cut-Equiv : (p k : K) (es : List (K × V)) → Equiv p k → cut p es ≡ cut k es
  unfolding cut
  cut-Equiv p k [] e = refl
  cut-Equiv p k (x ∷ es) e =
      ground (arith, less-Equiv_left p k x.0 e, less-Equiv_right p k x.0 e, cut-Equiv p k es e)
