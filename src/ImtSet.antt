-- ===== src/ImtSet.antt =====
-- immutable_container/include/immutable_container/imt_set.h (and unit_value.h): a set over any ordered
-- tree, with a value that says nothing.
pub mod Laws
mod Examples
use cpp_util.Util.{
  ℕ, List, [], ◌∷◌, Option, none, some, Bool, true, false, ◌&&◌, not, map, ◌==◌, is_some,
}
use cpp_util.Container.Comparator.{Comparator}
use cpp_util.Container.Outcome.{Outcome, ok, throw, ◌>>=◌}
use cpp_util.Container.Store.{Store}

pub data UnitValue {ℓ} : Type ℓ where
  unit_value : UnitValue

-- `std::unique`: of each run of equivalent keys the first is kept.
module _ {ℓ} {K : Type ℓ} ⦃c : Comparator K⦄ where
  pub unique_after : K → List K → List K
  unique_after kept [] = []
  unique_after kept (k ∷ ks) = elim (not (c.less kept k) && not (c.less k kept)) [
    | true ↦ unique_after kept ks
    | false ↦ k ∷ unique_after k ks
  ]

  pub unique : List K → List K
  unique [] = []
  unique (k ∷ ks) = k ∷ unique_after k ks

module _ {ℓ} {K : Type ℓ} ⦃c : Comparator K⦄ (S : Store K (UnitValue {ℓ})) where
  open S use {T}

  pub record ImtSet : Type ℓ where
    pub tree : T

  abbrev wrap : Outcome (Option T) → Outcome (Option ImtSet)
  wrap m = m >>= λ next. elim next [ none ↦ ok none | some t ↦ ok (some (record { tree = t })) ]

  -- `FromKeys`, given `std::sort` at the comparison of the keys.
  pub from_keys : (List K → List K) → List K → Outcome ImtSet
  from_keys sort keys =
      S.from_sorted_unique (map (λ k. (k, unit_value)) (unique (sort keys))) >>= λ t.
      ok (record { tree = t })

  pub empty : ImtSet → Bool
  empty s = S.is_empty s.tree

  pub size : ImtSet → ℕ
  size s = S.size s.tree

  pub contains : ImtSet → K → Bool
  contains s q = S.contains s.tree q

  pub insert : ImtSet → K → Outcome (Option ImtSet)
  insert s q = wrap (S.insert s.tree q unit_value)

  pub erase : ImtSet → K → Outcome (Option ImtSet)
  erase s q = wrap (S.erase s.tree q)

  -- `Add`: the set itself where `Insert` refuses.
  pub add : ImtSet → K → Outcome ImtSet
  add s q = insert s q >>= λ inserted. elim inserted [ none ↦ ok s | some s' ↦ ok s' ]

  pub to_vector : ImtSet → List K
  to_vector s = map (λ item. item.0) (S.to_vector s.tree)
