-- ===== src/ImmutableTree/Read.antt =====
-- `Find`, `Contains`, `ToVector`, `ForEach`, `ForEachUntil`, `Size`: what a caller reads.
use cpp_util.Util.{◌≡◌, refl, ◌∷◌, sym, ap, Bool, Bool-cases, inl, inr}
use mathlib.Core.List.{foldl, foldl-append}
use cpp_util.Container.Comparator.{Comparator}
use cpp_util.Container.Assoc
use cpp_util.Container.Assoc.{IsSorted, cut, Cut}
use cpp_util.Container.Assoc.Cutting.{cut-nil}
use cpp_util.Container.Assoc.Laws.{find-cut}
use cpp_util.Container.Visit.{visit_until, visit_until-append}
use cpp_util.ImmutableTree.{Tree, null, node, find, to_vector, for_each, for_each_until}
use cpp_util.ImmutableTree.Avl.{IsAvl, entries, to_vector-entries}
use cpp_util.ImmutableTree.Change.{IsSorted-l, IsSorted-r, here_l, here_r, cut_here}

module _ {ℓ κ} {K : Type ℓ} {V : Type κ} ⦃c : Comparator K⦄ where
  -- On a balanced sorted tree the walk of `Find` gives what the search of the sorted list of
  -- entries gives.
  pub find_lem :
      (t : Tree K V) (q : K) → IsAvl t → IsSorted (entries t) → find t q ≡ Assoc.find q (entries t)
  unfolding find
  find_lem null q avl sorted = rw (find-cut, cut-nil) refl
  find_lem (node k v l r s h) q avl sorted = elim (Bool-cases (c.less q k)) [
    | inl p ↦
        rw (p, find_lem l q avl.0 (IsSorted-l q k v l r s h avl sorted), find)
          (Assoc.Laws.find_same q (entries l) _ (sym (here_l q k v l r s h avl sorted p)))
    | inr n ↦ elim (Bool-cases (c.less k q)) [
      | inl p ↦
          rw (n, p, find_lem r q avl.1 (IsSorted-r q k v l r s h avl sorted), find)
            (Assoc.Laws.find_same q (entries r) _ (sym (here_r q k v l r s h avl sorted p)))
      | inr m ↦
          rw (n, m, find)
            (sym (
              Assoc.Laws.find_hit q _
                (ap (λ (x : Cut (K × V)). x.here) (cut_here q k v l r s h avl sorted (n, m)))))
    ]
  ]

module _ {ℓ κ μ} {K : Type ℓ} {V : Type κ} {S : Type μ} where
  for_each-entries :
      (f : S → K → V → S) (t : Tree K V) (st : S)
      → for_each f t st ≡ foldl (λ s e. f s e.0 e.1) st (entries t)
  unfolding for_each
  for_each-entries f null st = refl
  for_each-entries f (node k v l r s h) st =
      rw (foldl-append, ← for_each-entries f l st) (for_each-entries f r _)

  -- `ForEach` calls back once for each entry of `ToVector`, in that order.
  pub for_each-to_vector :
      (f : S → K → V → S) (t : Tree K V) (st : S)
      → for_each f t st ≡ foldl (λ s e. f s e.0 e.1) st (to_vector t)
  for_each-to_vector f t st = rw to_vector-entries (for_each-entries f t st)

  for_each_until-entries :
      (f : S → K → V → S × Bool) (t : Tree K V) (st : S)
      → for_each_until f t st ≡ visit_until (λ s e. f s e.0 e.1) (entries t) st
  unfolding for_each_until visit_until
  for_each_until-entries f null st = refl
  for_each_until-entries f (node k v l r s h) st =
      let whole = visit_until-append (λ s e. f s e.0 e.1) (entries l) ((k, v) ∷ entries r) st in
      let left = for_each_until-entries f l st in
      elim (Bool-cases (for_each_until f l st).1) [
        | inr stop ↦ rw (whole, ← left, stop, for_each_until) refl
        | inl go ↦
            rw (whole, ← left, go, for_each_until)
              (elim (Bool-cases (f (for_each_until f l st).0 k v).1) [
                | inr stop ↦ rw stop refl
                | inl on ↦ rw on (for_each_until-entries f r _)
              ])
      ]

  -- `ForEachUntil` calls back for the entries of `ToVector` in their order, stops at the first
  -- call that returns false, and reports whether none did.
  pub for_each_until-to_vector :
      (f : S → K → V → S × Bool) (t : Tree K V) (st : S)
      → for_each_until f t st ≡ visit_until (λ s e. f s e.0 e.1) (to_vector t) st
  for_each_until-to_vector f t st = rw to_vector-entries (for_each_until-entries f t st)
