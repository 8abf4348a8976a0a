-- ===== src/Container/Assoc/Find.antt =====
-- What `find` reads after each abstract operation, at every key.
use cpp_util.Util.{
  ℕ, ◌+◌, length, length-append, ◌≡◌, refl, List, ◌∷◌, ◌++◌, Option, none, some, arith, sym, ◌∙◌,
  ap, Bool, not, ◌&&◌, Bool-cases, Option-cases, inl, inr, if◌then◌else◌, subst,
}
use cpp_util.Container.Comparator.{Comparator, Equiv}
use cpp_util.Container.Assoc.{IsSorted, cut, find, insert, update, set, erase}
use cpp_util.Container.Assoc.Cutting.{entry, join-cut, here-IsHit, IsHit}
use cpp_util.Container.Assoc.Laws.{
  value, find-cut, replaced-IsSorted, here-replaced_lt, here-replaced_gt, here-replaced_eq,
}

-- 1 for a value that is there.
abbrev pub held {κ} : {V : Type κ} → Option V → ℕ
held none = 0
held (some v) = 1

module _ {ℓ} {K : Type ℓ} ⦃c : Comparator K⦄ where
  abbrev pub equiv : K → K → Bool
  equiv a b = not (c.less a b) && not (c.less b a)

  self : (k : K) → Equiv k k
  self k = (c.irrefl k, c.irrefl k)

module _ {ℓ κ} {K : Type ℓ} {V : Type κ} ⦃c : Comparator K⦄ where
  abbrev replaced : K → List (K × V) → Option (K × V) → List (K × V)
  replaced k es o = (cut k es).below ++ entry o (cut k es).above

  value_at :
      (k p : K) (es : List (K × V)) (o : Option (K × V)) {h : Option (K × V)}
      → (cut p (replaced k es o)).here ≡ h
      → find p (replaced k es o) ≡ value h
  value_at k p es o e = find-cut p _ ∙ ap value e

  stored : (k p : K) (es : List (K × V)) → find p (replaced k es (cut k es).here) ≡ find p es
  stored k p es = ap (find p) (join-cut k es)

  pub find-replaced :
      (k p : K) (es : List (K × V)) (o : Option (K × V))
      → IsSorted es
      → IsHit k o
      → find p (replaced k es o) ≡ (if equiv p k then value o else find p es)
  find-replaced k p es o sorted hit = elim (Bool-cases (c.less p k)) [
    | inl lt ↦ rw lt (
        value_at k p es o (here-replaced_lt k p es o sorted hit lt)
        ∙ sym (value_at k p es _ (here-replaced_lt k p es _ sorted (here-IsHit k es) lt))
        ∙ stored k p es)
    | inr n ↦ elim (Bool-cases (c.less k p)) [
      | inl gt ↦
          rw (n, gt)
            (value_at k p es o (here-replaced_gt k p es o sorted hit gt)
              ∙ sym (value_at k p es _ (here-replaced_gt k p es _ sorted (here-IsHit k es) gt))
              ∙ stored k p es)
      | inr m ↦ rw (n, m) (value_at k p es o (here-replaced_eq k p es o sorted hit (n, m)))
    ]
  ]

  -- Each operation by what stands at the key.
  module _ (k : K) (v : V) (es : List (K × V)) where
    pub insert_miss : (cut k es).here ≡ none → insert k v es ≡ some (replaced k es (some (k, v)))
    unfolding insert
    insert_miss e = rw (e, insert) refl

    pub insert_hit : {e : K × V} → (cut k es).here ≡ some e → insert k v es ≡ none
    unfolding insert
    insert_hit e = rw (e, insert) refl

    pub update_miss : (cut k es).here ≡ none → update k v es ≡ none
    unfolding update
    update_miss e = rw (e, update) refl

    pub update_hit :
        {e : K × V}
        → (cut k es).here ≡ some e
        → update k v es ≡ some (replaced k es (some (e.0, v)))
    unfolding update
    update_hit e = rw (e, update) refl

    pub set_miss : (cut k es).here ≡ none → set k v es ≡ replaced k es (some (k, v))
    unfolding set
    set_miss e = rw (e, set) refl

    pub set_hit :
        {e : K × V} → (cut k es).here ≡ some e → set k v es ≡ replaced k es (some (e.0, v))
    unfolding set
    set_hit e = rw (e, set) refl

  pub erase_miss : (k : K) (es : List (K × V)) → (cut k es).here ≡ none → erase k es ≡ none
  unfolding erase
  erase_miss k es e = rw (e, erase) refl

  pub erase_hit :
      (k : K) (es : List (K × V)) {e : K × V}
      → (cut k es).here ≡ some e
      → erase k es ≡ some (replaced k es none)
  unfolding erase
  erase_hit k es e = rw (e, erase) refl

  hit_key : (k : K) (es : List (K × V)) {e : K × V} → (cut k es).here ≡ some e → Equiv k e.0
  hit_key k es e = subst (IsHit k) e (here-IsHit k es)

  -- The entries with `o` at the key `k`: sorted, and read as before everywhere else.
  pub record Reads (k : K) (o : Option V) (es es' : List (K × V)) : Type (ℓ ⊔ κ) where
    pub sorted : IsSorted es'
    pub counted : length es' + held (find k es) ≡ length es + held o
    pub reads : (p : K) → find p es' ≡ (if equiv p k then o else find p es)

  length-replaced :
      (k : K) (es : List (K × V)) (o : Option (K × V))
      → length (replaced k es o)
        ≡ length (cut k es).below + (held (value o) + length (cut k es).above)
  length-replaced k es none = omega (arith, length-append (cut k es).below (cut k es).above)
  length-replaced k es (some e) =
      omega (arith, length-append (cut k es).below (e ∷ (cut k es).above))

  replaced-Reads :
      (k : K) (es : List (K × V)) (o : Option (K × V))
      → IsSorted es
      → IsHit k o
      → Reads k (value o) es (replaced k es o)
  replaced-Reads k es o sorted hit = record {
    sorted = replaced-IsSorted k es o sorted hit;
    counted = omega (
      arith,
      length-replaced k es o,
      length-replaced k es (cut k es).here,
      ap length (join-cut k es),
      ap held (find-cut k es),
    );
    reads = λ p. find-replaced k p es o sorted hit;
  }

  pub set-Reads :
      (k : K) (v : V) (es : List (K × V)) → IsSorted es → Reads k (some v) es (set k v es)
  set-Reads k v es sorted = elim (Option-cases (cut k es).here) [
    | inl miss ↦ rw (set_miss k v es miss) (replaced-Reads k es (some (k, v)) sorted (self k))
    | inr (e, hit) ↦
        rw (set_hit k v es hit) (replaced-Reads k es (some (e.0, v)) sorted (hit_key k es hit))
  ]

  -- What an operation that may refuse comes to, by what `find` reads at the key.
  pub data IfAbsent (k : K) (v : V) (es : List (K × V)) : Option (List (K × V)) → Type (ℓ ⊔ κ) where
    refused : {w : V} → find k es ≡ some w → IfAbsent k v es none
    added :
        {es' : List (K × V)}
        → find k es ≡ none
        → Reads k (some v) es es'
        → IfAbsent k v es (some es')

  pub data IfPresent (k : K) (o : Option V) (es : List (K × V))
      : Option (List (K × V)) → Type (ℓ ⊔ κ) where
    refused : find k es ≡ none → IfPresent k o es none
    changed :
        {w : V} {es' : List (K × V)}
        → find k es ≡ some w
        → Reads k o es es'
        → IfPresent k o es (some es')

  pub insert_lem :
      (k : K) (v : V) (es : List (K × V)) → IsSorted es → IfAbsent k v es (insert k v es)
  insert_lem k v es sorted = elim (Option-cases (cut k es).here) [
    | inl miss ↦
        rw (insert_miss k v es miss) (
          added (find-cut k es ∙ ap value miss) (replaced-Reads k es (some (k, v)) sorted (self k)))
    | inr (e, hit) ↦ rw (insert_hit k v es hit) (IfAbsent.refused (find-cut k es ∙ ap value hit))
  ]

  pub update_lem :
      (k : K) (v : V) (es : List (K × V)) → IsSorted es → IfPresent k (some v) es (update k v es)
  update_lem k v es sorted = elim (Option-cases (cut k es).here) [
    | inl miss ↦ rw (update_miss k v es miss) (IfPresent.refused (find-cut k es ∙ ap value miss))
    | inr (e, hit) ↦ rw (update_hit k v es hit) (
        changed (find-cut k es ∙ ap value hit)
          (replaced-Reads k es (some (e.0, v)) sorted (hit_key k es hit)))
  ]

  pub erase_lem : (k : K) (es : List (K × V)) → IsSorted es → IfPresent k none es (erase k es)
  erase_lem k es sorted = elim (Option-cases (cut k es).here) [
    | inl miss ↦ rw (erase_miss k es miss) (IfPresent.refused (find-cut k es ∙ ap value miss))
    | inr (e, hit) ↦
        rw (erase_hit k es hit)
          (changed (find-cut k es ∙ ap value hit) (replaced-Reads k es none sorted tt))
  ]
