-- ===== src/ImmutableTree/Examples.antt =====
-- Small trees: tests of the operations, and the theorems at them.
use cpp_util.Util.{
  ℕ, ◌≡◌, refl, [], ◌∷◌, false, arith, Bool, ◌+◌, ◌*◌, ltb, some, none, if◌then◌else◌,
}
use mathlib.Core.List.{foldl}
use cpp_util.Container.Comparator.{nat_less}
use cpp_util.Container.Outcome.{ok, throw, Error}
use cpp_util.Container.Assoc
use cpp_util.Container.Assoc.{IsSorted}
use cpp_util.Container.Store.{Refines, Gives}
use cpp_util.ImmutableTree.{
  Tree, null, node, height, size, u32_max, make_node, rebuild, balance, balance_factor, rotate_left,
  insert_node, update_node, set_node, erase_node, erase_here, erase_min, find_min, find,
  from_sorted_unique, validate_sorted_unique, build_balanced, for_each_until, for_each, to_vector,
  append_in_order, contains,
}
use cpp_util.Container.Visit.{visit_until}
use cpp_util.Container.Halves.{IsLeastHeight}
use cpp_util.ImmutableTree.Avl.{entries, IsAvl}
use cpp_util.ImmutableTree.Bounds.{make_node_exact}
use cpp_util.ImmutableTree.Refine.{
  IsValid, insert_node-Refines, update_node-Refines, erase_node-Refines, set_node-Gives,
}
use cpp_util.ImmutableTree.Balance.{Rebuilt, rebuild_lem}
use cpp_util.ImmutableTree.Read.{find_lem, for_each_until-to_vector, for_each-to_vector}
use cpp_util.ImmutableTree.Build.{from_sorted_unique_sorted, from_sorted_unique_unsorted}

abbrev Numbers : Type 0
Numbers = Tree ℕ ℕ

abbrev leaf_at : ℕ → Numbers
leaf_at k = node k k null null 1 1

-- 2 over 1 and 3, and 1 over nothing and 2.
abbrev three : Numbers
three = node 2 2 (leaf_at 1) (leaf_at 3) 3 2

abbrev lopsided : Numbers
lopsided = node 1 1 null (leaf_at 2) 2 2

-- An insertion at the right end turns the tree round.
rotates : insert_node lopsided 3 3 ≡ ok (some three)
unfolding insert_node rebuild make_node balance balance_factor rotate_left
rotates = refl

refuses : insert_node three 2 9 ≡ ok none
unfolding insert_node
refuses = refl

erases : erase_node three 2 ≡ ok (some (node 3 3 (leaf_at 1) null 2 2))
unfolding erase_node erase_here find_min erase_min rebuild make_node balance balance_factor
erases = refl

sets : set_node three 3 9 ≡ ok (node 2 2 (leaf_at 1) (node 3 9 null null 1 1) 3 2)
unfolding set_node rebuild make_node balance balance_factor
sets = refl

builds : from_sorted_unique ((1, 1) ∷ (2, 2) ∷ (3, 3) ∷ []) ≡ ok three
unfolding from_sorted_unique validate_sorted_unique build_balanced make_node
builds = refl

three-IsValid : IsValid three
three-IsValid = record { avl = omega arith; sorted = ((refl, (refl, tt)), ((refl, tt), (tt, tt))) }

insert_node-Refines_example :
    Refines IsValid entries (insert_node three 4 4) (Assoc.insert 4 4 (entries three))
insert_node-Refines_example = insert_node-Refines three 4 4 three-IsValid (omega arith)

update_node-Refines_example :
    Refines IsValid entries (update_node three 3 9) (Assoc.update 3 9 (entries three))
update_node-Refines_example = update_node-Refines three 3 9 three-IsValid

erase_node-Refines_example :
    Refines IsValid entries (erase_node three 2) (Assoc.erase 2 (entries three))
erase_node-Refines_example = erase_node-Refines three 2 three-IsValid

set_node-Gives_example : Gives IsValid entries (set_node three 5 5) (Assoc.set 5 5 (entries three))
set_node-Gives_example = set_node-Gives three 5 5 three-IsValid (λ absent. omega arith)

rebuild_lem_example :
    Rebuilt 5 5
      (node 3 3 null (leaf_at 4) 2 2)
      null
      (rebuild 5 5 (node 3 3 null (leaf_at 4) 2 2) null)
rebuild_lem_example =
    rebuild_lem 5 5 (node 3 3 null (leaf_at 4) 2 2) null (omega arith) (omega arith) (omega arith)
      (omega arith) (omega arith)

find_lem_example : find three 3 ≡ Assoc.find 3 (entries three)
find_lem_example = find_lem three 3 three-IsValid.avl three-IsValid.sorted

make_node_exact_example : make_node 4 4 three null ≡ (
    if ltb u32_max (1 + size three + 0)
    then throw Error.size_exceeds
    else ok (node 4 4 three null 4 3))
make_node_exact_example = make_node_exact 4 4 three null three-IsValid.avl tt

from_sorted_unique_sorted_example :
    (t : Numbers) × (from_sorted_unique ((1, 1) ∷ (2, 2) ∷ []) ≡ ok t)
    × IsAvl t
    × (entries t ≡ (1, 1) ∷ (2, 2) ∷ [])
    × IsLeastHeight 2 (height t)
from_sorted_unique_sorted_example =
    from_sorted_unique_sorted ((1, 1) ∷ (2, 2) ∷ []) ((refl, tt), (tt, tt)) (omega arith)

repeated : ¬ IsSorted {K = ℕ} {V = ℕ} ((1, 1) ∷ (1, 2) ∷ [])
repeated sorted = cc sorted.0.0

from_sorted_unique_unsorted_example :
    from_sorted_unique {K = ℕ} {V = ℕ} ((1, 1) ∷ (1, 2) ∷ []) ≡ throw Error.not_sorted
from_sorted_unique_unsorted_example = from_sorted_unique_unsorted ((1, 1) ∷ (1, 2) ∷ []) repeated

-- A callback that sums the values and stops at a sum of three.
abbrev sum_to_three : ℕ → ℕ → ℕ → ℕ × Bool
sum_to_three st k v = (st + v, ltb (st + v) 3)

stops : for_each_until sum_to_three three 0 ≡ (3, false)
unfolding for_each_until
stops = refl

for_each_until-to_vector_example :
    for_each_until sum_to_three three 0
    ≡ visit_until (λ s e. sum_to_three s e.0 e.1) (to_vector three) 0
for_each_until-to_vector_example = for_each_until-to_vector sum_to_three three 0

for_each-to_vector_example :
    for_each (λ st k v. st + k * v) three 0 ≡ foldl (λ s e. s + e.0 * e.1) 0 (to_vector three)
for_each-to_vector_example = for_each-to_vector (λ st k v. st + k * v) three 0

lists : (to_vector three ≡ (1, 1) ∷ (2, 2) ∷ (3, 3) ∷ []) × (contains three 4 ≡ false)
unfolding to_vector append_in_order contains find
lists = (refl, refl)
