-- ===== src/Container/Assoc/Edit.antt =====
-- The abstract operations in one form: a function of what stands at the key says what is to stand
-- there, or refuses.
use mathlib.Core.Option
use mathlib.Core.Option.{some-injective}
use cpp_util.Container.Store.{u32_max}
use cpp_util.Util.{
  ◌+◌, ◌≤◌, length, length-append, ◌≡◌, refl, List, [], ◌∷◌, ◌++◌, Option, none, some, arith, sym,
  ◌∙◌, ap, All, append_assoc, Option-cases, inl, inr, subst,
}
use cpp_util.Container.Comparator.{Comparator}
use cpp_util.Container.Assoc.{Cut, IsSorted, Before, After, cut, insert, update, set, erase}
use cpp_util.Container.Assoc.Cutting.{cut-right, entry, join-cut, here-IsHit, IsHit}
use cpp_util.Container.Assoc.Laws.{replaced-IsSorted}

module _ {ℓ κ} {K : Type ℓ} {V : Type κ} ⦃c : Comparator K⦄ where
  abbrev pub put_entry : K → V → Option (K × V) → Option (List (K × V))
  put_entry k v none = some ((k, v) ∷ [])
  put_entry k v (some e) = none

  abbrev pub put_value : V → Option (K × V) → Option (List (K × V))
  put_value v none = none
  put_value v (some e) = some ((e.0, v) ∷ [])

  abbrev pub put_either : K → V → Option (K × V) → Option (List (K × V))
  put_either k v none = some ((k, v) ∷ [])
  put_either k v (some e) = some ((e.0, v) ∷ [])

  abbrev pub put_nothing : Option (K × V) → Option (List (K × V))
  put_nothing none = none
  put_nothing (some e) = some []

  abbrev pub fill : Cut (K × V) → Option (List (K × V)) → Option (List (K × V))
  fill p o = Option.map (λ mid. p.below ++ (mid ++ p.above)) o

  pub edit : (Option (K × V) → Option (List (K × V))) → K → List (K × V) → Option (List (K × V))
  edit f k es = fill (cut k es) (f (cut k es).here)

  pub insert-edit : (k : K) (v : V) (es : List (K × V)) → insert k v es ≡ edit (put_entry k v) k es
  unfolding insert edit
  insert-edit k v es = elim (Option-cases (cut k es).here) [
    | inl e ↦ rw (e, insert) refl
    | inr (x, e) ↦ rw (e, insert) refl
  ]

  pub update-edit : (k : K) (v : V) (es : List (K × V)) → update k v es ≡ edit (put_value v) k es
  unfolding update edit
  update-edit k v es = elim (Option-cases (cut k es).here) [
    | inl e ↦ rw (e, update) refl
    | inr (x, e) ↦ rw (e, update) refl
  ]

  pub set-edit :
      (k : K) (v : V) (es : List (K × V)) → some (set k v es) ≡ edit (put_either k v) k es
  unfolding set edit
  set-edit k v es = elim (Option-cases (cut k es).here) [
    | inl e ↦ rw (e, set) refl
    | inr (x, e) ↦ rw (e, set) refl
  ]

  pub erase-edit : (k : K) (es : List (K × V)) → erase k es ≡ edit put_nothing k es
  unfolding erase edit
  erase-edit k es = elim (Option-cases (cut k es).here) [
    | inl e ↦ rw (e, erase) refl
    | inr (x, e) ↦ rw (e, erase) refl
  ]

  -- Entries beyond the key stay as they are.
  pub cut-before :
      (k : K) (xs ys : List (K × V))
      → All (After k) ys
      → cut k (xs ++ ys) ≡ record {
        below = (cut k xs).below;
        here = (cut k xs).here;
        above = (cut k xs).above ++ ys;
      }
  unfolding cut
  cut-before k [] [] h = refl
  cut-before k [] (y ∷ ys) h = ground arith
  cut-before k (x ∷ xs) ys h = ground (arith, cut-before k xs ys h)

  module _ (f : Option (K × V) → Option (List (K × V))) (k : K) where
    map-fill :
        (p : Cut (K × V)) (ys : List (K × V)) (o : Option (List (K × V)))
        → fill (record { below = p.below; here = p.here; above = p.above ++ ys }) o
          ≡ Option.map (λ zs. zs ++ ys) (fill p o)
    map-fill p ys none = refl
    map-fill p ys (some mid) = ap some (simp append_assoc)

    pub edit-before :
        (xs ys : List (K × V))
        → All (After k) ys
        → edit f k (xs ++ ys) ≡ Option.map (λ zs. zs ++ ys) (edit f k xs)
    unfolding edit
    edit-before xs ys h =
        ap (λ (p : Cut (K × V)). fill p (f p.here)) (cut-before k xs ys h)
        ∙ map-fill (cut k xs) ys (f (cut k xs).here)

    map-fill_past :
        (p : Cut (K × V)) (xs : List (K × V)) (o : Option (List (K × V)))
        → fill (record { below = xs ++ p.below; here = p.here; above = p.above }) o
          ≡ Option.map (λ zs. xs ++ zs) (fill p o)
    map-fill_past p xs none = refl
    map-fill_past p xs (some mid) = ap some (simp append_assoc)

    pub edit-past :
        (xs ys : List (K × V))
        → All (Before k) xs
        → edit f k (xs ++ ys) ≡ Option.map (λ zs. xs ++ zs) (edit f k ys)
    unfolding edit
    edit-past xs ys h =
        ap (λ (p : Cut (K × V)). fill p (f p.here)) (cut-right k xs ys h)
        ∙ map-fill_past (cut k ys) xs (f (cut k ys).here)

    -- Between entries below the key and entries beyond it.
    pub edit-between :
        (xs es ys : List (K × V))
        → All (Before k) xs
        → All (After k) ys
        → edit f k (xs ++ (es ++ ys)) ≡ Option.map (λ zs. xs ++ (zs ++ ys)) (edit f k es)
    edit-between xs es ys hx hy =
        edit-past xs (es ++ ys) hx
        ∙ ap (Option.map (λ zs. xs ++ zs)) (edit-before es ys hy)
        ∙ twice (edit f k es)
      where
        twice :
            (o : Option (List (K × V)))
            → Option.map (λ zs. xs ++ zs) (Option.map (λ zs. zs ++ ys) o)
              ≡ Option.map (λ zs. xs ++ (zs ++ ys)) o
        twice none = refl
        twice (some zs) = refl

module _ {ℓ} {K V : Type ℓ} ⦃c : Comparator K⦄ where
  -- The list of an edit, where there is one, fits the count of a node.
  abbrev pub Fits : Option (List (K × V)) → Type ℓ
  Fits o = (es : List (K × V)) → o ≡ some es → length es ≤ u32_max

  -- An edit within a list that is part of a longer one.
  pub Fits-part :
      (g : List (K × V) → List (K × V))
      → ((es : List (K × V)) → length es ≤ length (g es))
      → (o : Option (List (K × V))) → Fits (Option.map g o)
      → Fits o
  Fits-part g longer none fits es e = cc e
  Fits-part g longer (some xs) fits es e =
      omega (arith, longer es, fits (g es) (ap (Option.map g) e))

  -- The edit of a list at an entry of the key, or where none is.
  pub edit-here :
      (f : Option (K × V) → Option (List (K × V))) (q : K) (es : List (K × V)) (o : Option (K × V))
      (mid : Option (List (K × V)))
      → (cut q es).here ≡ o
      → f o ≡ mid
      → edit f q es ≡ fill (cut q es) mid
  unfolding edit
  edit-here f q es o mid e m =
      ap (λ (x : Option (K × V)). fill (cut q es) (f x)) e ∙ ap (fill (cut q es)) m

  -- Nothing stands at a key of the empty list.
  pub edit-nil :
      (f : Option (K × V) → Option (List (K × V))) (q : K) (mid : Option (List (K × V)))
      → f none ≡ mid
      → edit f q [] ≡ Option.map (λ zs. zs ++ []) mid
  unfolding edit cut
  edit-nil f q mid e = ap (Option.map (λ zs. zs ++ [])) e

  -- An edit makes a list longer by no more than it puts at the key.
  pub edit-length :
      (f : Option (K × V) → Option (List (K × V))) (q : K) (es mid zs : List (K × V))
      → f (cut q es).here ≡ some mid
      → edit f q es ≡ some zs
      → length zs + length (entry (cut q es).here []) ≤ length es + length mid
  unfolding edit
  edit-length f q es mid zs e made =
      let p = cut q es in
      let whole : p.below ++ (mid ++ p.above) ≡ zs =
        some-injective _ _ (ap (fill p) (sym e) ∙ made) in
      omega (
        arith,
        ap length whole,
        ap length (join-cut q es),
        length-append p.below (mid ++ p.above),
        length-append mid p.above,
        parts p p.here,
      )
    where
      parts :
          (p : Cut (K × V)) (o : Option (K × V))
          → length (p.below ++ entry o p.above)
            ≡ length p.below + length (entry o []) + length p.above
      parts p none = omega (arith, length-append p.below p.above)
      parts p (some e) = omega (arith, length-append p.below (e ∷ p.above))

  -- What an edit was, where it gave a list.
  pub edit-inverse :
      (f : Option (K × V) → Option (List (K × V))) (q : K) (es zs : List (K × V))
      → edit f q es ≡ some zs
      → (mid : List (K × V)) × (f (cut q es).here ≡ some mid)
        × ((cut q es).below ++ (mid ++ (cut q es).above) ≡ zs)
  unfolding edit
  edit-inverse f q es zs e = elim (Option-cases (f (cut q es).here)) [
    | inl refuses ↦ cc (sym (ap (fill (cut q es)) refuses) ∙ e)
    | inr (mid, puts) ↦ (mid, puts, some-injective _ _ (sym (ap (fill (cut q es)) puts) ∙ e))
  ]

  -- An edit that puts at most one entry of the key keeps a list sorted.
  abbrev pub IsLocal : (Option (K × V) → Option (List (K × V))) → K → Type ℓ
  IsLocal f q =
      (o : Option (K × V)) (mid : List (K × V))
      → IsHit q o
      → f o ≡ some mid
      → (o' : Option (K × V)) × IsHit q o' × (mid ≡ entry o' [])

  entry-append : (o : Option (K × V)) (ys : List (K × V)) → entry o ys ≡ entry o [] ++ ys
  entry-append none ys = refl
  entry-append (some e) ys = refl

  pub edit-IsSorted :
      (f : Option (K × V) → Option (List (K × V))) (q : K) (es zs : List (K × V))
      → IsLocal f q
      → IsSorted es
      → edit f q es ≡ some zs
      → IsSorted zs
  edit-IsSorted f q es zs local sorted e =
      let (mid, puts, whole) = edit-inverse f q es zs e in
      let (o, hit, same) = local (cut q es).here mid (here-IsHit q es) puts in
      subst IsSorted
        (ap (λ ys. (cut q es).below ++ ys)
            (entry-append o (cut q es).above ∙ ap (λ ys. ys ++ (cut q es).above) (sym same))
          ∙ whole)
        (replaced-IsSorted q es o sorted hit)

  pub put_entry-IsLocal : (q : K) (w : V) → IsLocal (put_entry q w) q
  put_entry-IsLocal q w none mid hit e =
      (some (q, w), (c.irrefl q, c.irrefl q), sym (some-injective _ _ e))
  put_entry-IsLocal q w (some x) mid hit e = cc e

  pub put_value-IsLocal : (q : K) (w : V) → IsLocal (put_value w) q
  put_value-IsLocal q w none mid hit e = cc e
  put_value-IsLocal q w (some x) mid hit e = (some (x.0, w), hit, sym (some-injective _ _ e))

  pub put_either-IsLocal : (q : K) (w : V) → IsLocal (put_either q w) q
  put_either-IsLocal q w none mid hit e =
      (some (q, w), (c.irrefl q, c.irrefl q), sym (some-injective _ _ e))
  put_either-IsLocal q w (some x) mid hit e = (some (x.0, w), hit, sym (some-injective _ _ e))

  pub put_nothing-IsLocal : (q : K) → IsLocal put_nothing q
  put_nothing-IsLocal q none mid hit e = cc e
  put_nothing-IsLocal q (some x) mid hit e = (none, tt, sym (some-injective _ _ e))
