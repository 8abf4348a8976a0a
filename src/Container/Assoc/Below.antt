-- ===== src/Container/Assoc/Below.antt =====
-- How many entries of a list are below a key, when the list is cut at one of its entries.
use cpp_util.Util.{◌+◌, ◌≡◌, ◌∙◌, ap, false, List, [], ◌∷◌, ◌++◌, length, length-append, arith, All}
use cpp_util.Container.Comparator.{Comparator, ◌≺◌}
use cpp_util.Container.Assoc.{Cut, IsSorted, Before, cut}
use cpp_util.Container.Assoc.Sorted.{All-Before}
use cpp_util.Container.Assoc.Cutting.{cut-past}

module _ {ℓ} {K V : Type ℓ} ⦃c : Comparator K⦄ where
  -- An entry that is not below the key, and what is behind it, do not count.
  pub below-left :
      (q : K) (xs : List (K × V)) (e : K × V) (ys : List (K × V))
      → c.less e.0 q ≡ false
      → (cut q (xs ++ e ∷ ys)).below ≡ (cut q xs).below
  unfolding cut
  below-left q [] e ys h = ground arith
  below-left q (x ∷ xs) e ys h = ground (arith, below-left q xs e ys h)

  All-below :
      (q : K) (xs : List (K × V)) (e : K × V) → All (Before e.0) xs → e.0 ≺ q → All (Before q) xs
  All-below q [] e h p = tt
  All-below q (x ∷ xs) e h p = (c.trans x.0 e.0 q h.0 p, All-below q xs e h.1 p)

  pub below-right :
      (q : K) (xs : List (K × V)) (e : K × V) (ys : List (K × V))
      → IsSorted (xs ++ e ∷ ys)
      → e.0 ≺ q
      → length (cut q (xs ++ e ∷ ys)).below ≡ length xs + 1 + length (cut q ys).below
  below-right q xs e ys sorted p =
      ap (λ (p : Cut (K × V)). length p.below)
        (cut-past q xs e ys (All-below q xs e (All-Before xs ys e sorted) p) p)
      ∙ length-append xs (e ∷ (cut q ys).below)
      ∙ omega arith
