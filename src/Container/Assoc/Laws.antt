-- ===== src/Container/Assoc/Laws.antt =====
-- What the abstract operations do to a sorted list, and to what `find` reads from it.
use cpp_util.Util.{
  ◌≡◌, refl, List, [], ◌∷◌, ◌++◌, Option, none, some, arith, sym, ◌∙◌, ap, subst, All, Bool-cases,
  inl, inr, append-nil,
}
use cpp_util.Container.Comparator.{
  Comparator, ◌≺◌, Equiv, less_asymm, less_of_less_of_not, less_of_not_of_less,
}
use cpp_util.Container.Assoc.{IsSorted, Before, After, Cut, cut, find}
use cpp_util.Container.Assoc.Cutting.{
  entry, join-cut, below-Before, IsHit, cut-left, cut-right, cut-here, cut-nil, cut-Equiv,
}
use cpp_util.Container.Assoc.Sorted.{
  IsSorted-left, IsSorted-right, IsSorted-append, IsSorted-insert, All-Before_le, All-After_le,
}

module _ {ℓ κ} {K : Type ℓ} {V : Type κ} ⦃c : Comparator K⦄ where
  abbrev pub value : Option (K × V) → Option V
  value none = none
  value (some e) = some e.1

  pub find-cut : (q : K) (es : List (K × V)) → find q es ≡ value (cut q es).here
  unfolding find
  find-cut q es = ground (arith)

  pub find_same :
      (q : K) (xs ys : List (K × V)) → (cut q xs).here ≡ (cut q ys).here → find q xs ≡ find q ys
  find_same q xs ys e = find-cut q xs ∙ ap value e ∙ sym (find-cut q ys)

  pub find_hit :
      (q : K) (es : List (K × V)) {e : K × V} → (cut q es).here ≡ some e → find q es ≡ some e.1
  find_hit q es e = find-cut q es ∙ ap value e

  -- The parts of the cut of a sorted list.
  pub above-After : (k : K) (es : List (K × V)) → IsSorted es → All (After k) (cut k es).above
  unfolding cut
  above-After k [] sorted = tt
  above-After k (e ∷ es) sorted = elim (Bool-cases (c.less k e.0)) [
    | inl p ↦ rw (p, cut) (p, All-After_le e.0 k (less_asymm k e.0 p) es sorted.0)
    | inr n ↦ elim (Bool-cases (c.less e.0 k)) [
      | inl p ↦ rw (n, p, cut) (above-After k es sorted.1)
      | inr m ↦ rw (n, m, cut) (All-After_le e.0 k m es sorted.0)
    ]
  ]

  joined-IsSorted :
      (k : K) (es : List (K × V))
      → IsSorted es
      → IsSorted ((cut k es).below ++ entry (cut k es).here (cut k es).above)
  joined-IsSorted k es sorted = subst IsSorted (sym (join-cut k es)) sorted

  pub below-IsSorted : (k : K) (es : List (K × V)) → IsSorted es → IsSorted (cut k es).below
  below-IsSorted k es sorted = IsSorted-left _ _ (joined-IsSorted k es sorted)

  IsSorted-entry : (o : Option (K × V)) (ys : List (K × V)) → IsSorted (entry o ys) → IsSorted ys
  IsSorted-entry none ys h = h
  IsSorted-entry (some e) ys h = h.1

  pub above-IsSorted : (k : K) (es : List (K × V)) → IsSorted es → IsSorted (cut k es).above
  above-IsSorted k es sorted =
      IsSorted-entry (cut k es).here _
        (IsSorted-right (cut k es).below _ (joined-IsSorted k es sorted))

  -- With the middle replaced by an entry of an equivalent key, or by none, the list stays sorted.
  pub replaced-IsSorted :
      (k : K) (es : List (K × V)) (o : Option (K × V))
      → IsSorted es
      → IsHit k o
      → IsSorted ((cut k es).below ++ entry o (cut k es).above)
  replaced-IsSorted k es none sorted hit =
      IsSorted-append k _ _ (below-IsSorted k es sorted) (below-Before k es)
        (above-IsSorted k es sorted) (above-After k es sorted)
  replaced-IsSorted k es (some e) sorted hit =
      IsSorted-insert e.0 e.1 _ _ (below-IsSorted k es sorted)
        (All-Before_le k e.0 hit.1 _ (below-Before k es)) (above-IsSorted k es sorted)
        (All-After_le k e.0 hit.0 _ (above-After k es sorted))

  -- Where a key is looked up in two lists of which one lies wholly beyond it.
  here-left :
      (p : K) (xs ys : List (K × V)) → All (After p) ys → (cut p (xs ++ ys)).here ≡ (cut p xs).here
  here-left p xs [] h = ap (λ (l : List (K × V)). (cut p l).here) (append-nil xs)
  here-left p xs (y ∷ ys) h = ap (λ (x : Cut (K × V)). x.here) (cut-left p xs y ys h.0)

  here-right :
      (p : K) (xs ys : List (K × V)) → All (Before p) xs → (cut p (xs ++ ys)).here ≡ (cut p ys).here
  here-right p xs ys h = ap (λ (x : Cut (K × V)). x.here) (cut-right p xs ys h)

  here-nil : (p : K) (ys : List (K × V)) → All (After p) ys → (cut p ys).here ≡ none
  here-nil p ys h = here-left p [] ys h ∙ ap (λ (x : Cut (K × V)). x.here) (cut-nil p)

  All-entry :
      {P : K × V → Type 0} (o : Option (K × V)) (ys : List (K × V))
      → ((e : K × V) → o ≡ some e → P e)
      → All P ys
      → All P (entry o ys)
  All-entry none ys f h = h
  All-entry (some e) ys f h = (f e refl, h)

  IsHit-some : (k : K) (o : Option (K × V)) → IsHit k o → (e : K × V) → o ≡ some e → Equiv k e.0
  IsHit-some k none h e p = cc
  IsHit-some k (some e') h e p = subst (λ (x : Option (K × V)). IsHit k x) p h

  -- What stands at a key below `k`, above it, and at it.
  pub here-replaced_lt :
      (k p : K) (es : List (K × V)) (o : Option (K × V))
      → IsSorted es
      → IsHit k o
      → p ≺ k
      → (cut p ((cut k es).below ++ entry o (cut k es).above)).here ≡ (cut p (cut k es).below).here
  here-replaced_lt k p es o sorted hit h = here-left p _ _ (
      All-entry {P = After p} o _
        (λ e at. less_of_less_of_not p k e.0 h (IsHit-some k o hit e at).1)
        (All-After_le k p (less_asymm p k h) _ (above-After k es sorted)))

  pub here-replaced_gt :
      (k p : K) (es : List (K × V)) (o : Option (K × V))
      → IsSorted es
      → IsHit k o
      → k ≺ p
      → (cut p ((cut k es).below ++ entry o (cut k es).above)).here ≡ (cut p (cut k es).above).here
  here-replaced_gt k p es none sorted hit h =
      here-right p _ _ (All-Before_le k p (less_asymm k p h) _ (below-Before k es))
  here-replaced_gt k p es (some e) sorted hit h =
      here-right p _ _ (All-Before_le k p (less_asymm k p h) _ (below-Before k es))
      ∙ here-right p (e ∷ []) _ (less_of_not_of_less e.0 k p hit.0 h, tt)

  pub here-replaced_eq :
      (k p : K) (es : List (K × V)) (o : Option (K × V))
      → IsSorted es
      → IsHit k o
      → Equiv p k
      → (cut p ((cut k es).below ++ entry o (cut k es).above)).here ≡ o
  here-replaced_eq k p es none sorted hit e =
      here-right p _ _ (All-Before_le k p e.0 _ (below-Before k es))
      ∙ here-nil p _ (All-After_le k p e.1 _ (above-After k es sorted))
  here-replaced_eq k p es (some x) sorted hit e =
      here-right p _ _ (All-Before_le k p e.0 _ (below-Before k es))
      ∙ ap (λ (x : Cut (K × V)). x.here)
          (cut-here p x _ (c.cotrans p k x.0 e.0 hit.0, c.cotrans x.0 k p hit.1 e.1))

  pub find-Equiv : (p k : K) (es : List (K × V)) → Equiv p k → find p es ≡ find k es
  find-Equiv p k es e =
      find-cut p es
      ∙ ap (λ (x : Cut (K × V)). value x.here) (cut-Equiv p k es e)
      ∙ sym (find-cut k es)
