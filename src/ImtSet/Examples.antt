-- ===== src/ImtSet/Examples.antt =====
-- Sets of numbers over the AVL tree: tests, and the theorems at them.
use cpp_util.Util.{ℕ, ◌≡◌, ◌||◌, refl, [], ◌∷◌, true, false, arith}
use cpp_util.Container.Comparator.{nat_less}
use cpp_util.Container.Outcome.{ok}
use cpp_util.Container.Assoc.Find.{equiv}
use cpp_util.Container.Store.{Store}
use cpp_util.ImmutableTree
use cpp_util.ImmutableTree.{null, node}
use cpp_util.ImmutableTree.AsStore.{tree_store}
use cpp_util.ImtSet.{
  UnitValue, unit_value, unique, unique_after, ImtSet, from_keys, empty, size, contains, insert,
  erase, add, to_vector,
}
use cpp_util.ImtSet.Laws.{IsValid, Inserted, Erased, insert-holds, erase-holds, add-holds}

abbrev numbers : Store ℕ (UnitValue {0})
numbers = tree_store {K = ℕ} {V = UnitValue}

-- The keys 1 and 2.
abbrev pair : ImtSet numbers
pair = record { tree = node 1 unit_value null (node 2 unit_value null null 1 1) 2 2 }

pair-IsValid : IsValid numbers pair
pair-IsValid = record { avl = omega arith; sorted = ((refl, tt), (tt, tt)) }

reads :
    (empty numbers pair ≡ false)
    × (size numbers pair ≡ 2)
    × (contains numbers pair 2 ≡ true)
    × (to_vector numbers pair ≡ 1 ∷ 2 ∷ [])
unfolding empty size contains to_vector ImmutableTree.find ImmutableTree.contains
    ImmutableTree.is_empty ImmutableTree.to_vector ImmutableTree.append_in_order
reads = (refl, refl, refl, refl)

-- Sorted keys, one of them twice.
drops_repeats :
    from_keys numbers (λ ks. ks) (1 ∷ 2 ∷ 2 ∷ []) ≡ from_keys numbers (λ ks. ks) (1 ∷ 2 ∷ [])
unfolding from_keys unique unique_after
drops_repeats = refl

insert-holds_example : Inserted numbers 3 pair (insert numbers pair 3)
insert-holds_example = insert-holds numbers pair 3 pair-IsValid (unfold size in omega arith)

erase-holds_example : Erased numbers 1 pair (erase numbers pair 1)
erase-holds_example = erase-holds numbers pair 1 pair-IsValid

add-holds_example :
    (s' : ImtSet numbers) × (add numbers pair 2 ≡ ok s')
    × IsValid numbers s'
    × ((p : ℕ) → contains numbers s' p ≡ (equiv p 2 || contains numbers pair p))
add-holds_example = add-holds numbers pair 2 pair-IsValid (unfold size in omega arith)
