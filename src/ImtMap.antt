-- ===== src/ImtMap.antt =====
-- immutable_container/include/immutable_container/imt_map.h: a map over any ordered tree.
pub mod Laws
pub mod FromEntries
mod Examples
use cpp_util.Util.{
  ℕ, ◌+◌, List, [], ◌∷◌, Option, none, some, Bool, true, false, ◌&&◌, ◌||◌, not, ◌==◌, is_some,
}
use cpp_util.Container.Comparator.{Comparator}
use cpp_util.Container.Outcome.{Outcome, ok, throw, ◌>>=◌}
use cpp_util.Container.Store.{Store}

module _ {ℓ} {K V : Type ℓ} ⦃c : Comparator K⦄ (S : Store K V) where
  open S use {T}

  pub record ImtMap : Type ℓ where
    pub tree : T

  -- What a call of the tree returns, wrapped in a map where there is a tree.
  abbrev wrap : Outcome (Option T) → Outcome (Option ImtMap)
  wrap m = m >>= λ next. elim next [ none ↦ ok none | some t ↦ ok (some (record { tree = t })) ]

  pub empty_map : ImtMap
  empty_map = record { tree = S.empty }

  pub empty : ImtMap → Bool
  empty m = S.is_empty m.tree

  pub size : ImtMap → ℕ
  size m = S.size m.tree

  pub find : ImtMap → K → Option V
  find m q = S.find m.tree q

  pub contains : ImtMap → K → Bool
  contains m q = S.contains m.tree q

  pub insert : ImtMap → K → V → Outcome (Option ImtMap)
  insert m q w = wrap (S.insert m.tree q w)

  pub update : ImtMap → K → V → Outcome (Option ImtMap)
  update m q w = wrap (S.update m.tree q w)

  pub erase : ImtMap → K → Outcome (Option ImtMap)
  erase m q = wrap (S.erase m.tree q)

  pub set : ImtMap → K → V → Outcome ImtMap
  set m q w = S.set m.tree q w >>= λ t. ok (record { tree = t })

  pub to_vector : ImtMap → List (K × V)
  to_vector m = S.to_vector m.tree

  -- The loop of `FromEntries`: whether some entry is equivalent to the one before it.
  pub has_duplicate : List (K × V) → Bool
  has_duplicate [] = false
  has_duplicate (previous ∷ []) = false
  has_duplicate (previous ∷ current ∷ es) =
      (not (c.less previous.0 current.0) && not (c.less current.0 previous.0))
      || has_duplicate (current ∷ es)

  -- `FromEntries`, given `std::sort` at the comparison of the keys.
  pub from_entries : (List (K × V) → List (K × V)) → List (K × V) → Outcome (Option ImtMap)
  from_entries sort es =
      let entries = sort es in
      elim (has_duplicate entries) [
        | true ↦ ok none
        | false ↦ S.from_sorted_unique entries >>= λ t. ok (some (record { tree = t }))
      ]
