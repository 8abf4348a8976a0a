-- ===== src/Container/Assoc.antt =====
-- The abstract view of an ordered container: a list of entries in ascending order of their keys.
-- A call names a key; the list is cut there into the entries below the key, the entry of an
-- equivalent key if there is one, and the entries above.
pub mod Sorted
pub mod Cutting
pub mod Laws
pub mod Find
pub mod Edit
pub mod Below
use cpp_util.Util.{true, false, Option, none, some, List, [], ◌∷◌, ◌++◌, All}
use cpp_util.Container.Comparator.{Comparator, ◌≺◌}

pub record Cut {ℓ} (E : Type ℓ) : Type ℓ where
  pub below : List E
  pub here : Option E
  pub above : List E

module _ {ℓ κ} {K : Type ℓ} {V : Type κ} ⦃c : Comparator K⦄ where
  abbrev pub Before : K → K × V → Type 0
  Before k e = e.0 ≺ k

  abbrev pub After : K → K × V → Type 0
  After k e = k ≺ e.0

  abbrev pub IsSorted : List (K × V) → Type (ℓ ⊔ κ)
  IsSorted [] = Unit
  IsSorted (e ∷ es) = All (After e.0) es × IsSorted es

  pub cut : K → List (K × V) → Cut (K × V)
  cut k [] = record { below = []; here = none; above = [] }
  cut k (e ∷ es) =
      let rest = cut k es in
      elim (c.less k e.0) [
        | true ↦ record { below = []; here = none; above = e ∷ es }
        | false ↦ elim (c.less e.0 k) [
          | true ↦ record { below = e ∷ rest.below; here = rest.here; above = rest.above }
          | false ↦ record { below = []; here = some e; above = es }
        ]
      ]

  -- `Find`.
  pub find : K → List (K × V) → Option V
  find k es = elim (cut k es).here [ none ↦ none | some e ↦ some e.1 ]

  -- `Insert`: refused where the key is present.
  pub insert : K → V → List (K × V) → Option (List (K × V))
  insert k v es =
      let p = cut k es in elim p.here [ none ↦ some (p.below ++ (k, v) ∷ p.above) | some e ↦ none ]

  -- `Update`: refused where the key is absent; the stored key stays.
  pub update : K → V → List (K × V) → Option (List (K × V))
  update k v es =
      let p = cut k es in
      elim p.here [ none ↦ none | some e ↦ some (p.below ++ (e.0, v) ∷ p.above) ]

  -- `Set`: never refused.
  pub set : K → V → List (K × V) → List (K × V)
  set k v es =
      let p = cut k es in
      elim p.here [ none ↦ p.below ++ (k, v) ∷ p.above | some e ↦ p.below ++ (e.0, v) ∷ p.above ]

  -- `Erase`: refused where the key is absent.
  pub erase : K → List (K × V) → Option (List (K × V))
  erase k es = let p = cut k es in elim p.here [ none ↦ none | some e ↦ some (p.below ++ p.above) ]
