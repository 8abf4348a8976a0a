-- ===== src/ImmutableBlockTree/Examples.antt =====
-- Small trees of blocks of at most two entries: tests of the operations, and the theorems at them.
use cpp_util.Util.{ℕ, ◌≡◌, refl, [], ◌∷◌, arith, Bool, ◌+◌, ltb, some, List, length}
use cpp_util.Container.Comparator.{nat_less}
use cpp_util.Container.Blocks.{Blocks}
use cpp_util.Container.Outcome.{ok, throw, Error}
use cpp_util.Container.Assoc
use cpp_util.Container.Assoc.{IsSorted}
use cpp_util.Container.Halves.{IsLeastHeight}
use cpp_util.Container.Store.{Refines, Gives}
use cpp_util.Container.Visit.{visit_until}
use cpp_util.ImmutableBlockTree.{
  Tree, null, node, height, make_node, balance, balance_factor, rebuild, join_node, erase_min,
  erase_max, merge_left, merge_right, normalize, normalize_node, build_split_nodes, insert_in_block,
  holds_at, side, find, insert_node, update_node, is_empty, erase_here, erase_node, set_node,
  to_vector, find_min, find_max, from_sorted_unique, for_each_until,
}
use cpp_util.ImmutableBlockTree.Avl.{IsAvl, entries}
use cpp_util.ImmutableBlockTree.Build.{
  from_sorted_unique_blocks, from_sorted_unique_unsorted_blocks,
}
use cpp_util.ImmutableBlockTree.Join.{Joined, join_node-Joined}
use cpp_util.ImmutableBlockTree.Normalize
use cpp_util.ImmutableBlockTree.Normalize.{normalize_node-Gives}
use cpp_util.ImmutableBlockTree.Read.{find_lem_blocks, for_each_until-to_vector_blocks}
use cpp_util.ImmutableBlockTree.Refine.{
  IsValid, insert_node-Refines_blocks, update_node-Refines_blocks, erase_node-Refines_blocks,
  set_node-Gives_blocks,
}
use cpp_util.ZipList.{
  ZipList, full, split_inserted, split_entries, from_sorted_entries, construct_all, construct_back,
  can_merge, entry_at, key_at, value_at, lower_bound, bound_loop, with_erased, erased, merged,
}
use cpp_util.ZipList.AsBlocks.{zip_blocks, can_update-inside}
use cpp_util.ZipList.Edit.{filled}

abbrev pairs : Blocks ℕ ℕ
pairs = zip_blocks 2 (omega arith)

abbrev Numbers : Type 0
Numbers = Tree (ZipList (ℕ × ℕ))

abbrev keyed : List ℕ → List (ℕ × ℕ)
keyed [] = []
keyed (k ∷ ks) = (k, k) ∷ keyed ks

abbrev block : List ℕ → ZipList (ℕ × ℕ)
block ks = filled (keyed ks)

abbrev leaf_of : List ℕ → Numbers
leaf_of ks = node (block ks) null null (length ks) 1

-- Three full blocks, the middle one above the others; and two, one over nothing and the other.
abbrev six : Numbers
six = node (block (3 ∷ 4 ∷ [])) (leaf_of (1 ∷ 2 ∷ [])) (leaf_of (5 ∷ 6 ∷ [])) 6 2

abbrev lopsided : Numbers
lopsided = node (block (2 ∷ [])) null (leaf_of (4 ∷ 6 ∷ [])) 3 2

-- A full block splits, and the tree grows to its right.
splits :
    insert_node pairs six 7 7
    ≡ ok (
        some (
          node
            (block (3 ∷ 4 ∷ []))
            (leaf_of (1 ∷ 2 ∷ []))
            (node (block (5 ∷ [])) null (leaf_of (6 ∷ 7 ∷ [])) 3 2)
            7
            3))
unfolding insert_node side insert_in_block build_split_nodes normalize_node normalize balance
    balance_factor make_node key_at full split_inserted split_entries from_sorted_entries
    construct_all construct_back can_merge find_max find_min entry_at merge_left merge_right
    is_empty join_node rebuild
splits = refl

-- An entry is put in the block that has room for it.
inserts :
    insert_node pairs lopsided 3 3
    ≡ ok (some (node (block (2 ∷ 3 ∷ [])) null (leaf_of (4 ∷ 6 ∷ [])) 4 2))
unfolding insert_node side insert_in_block build_split_nodes normalize_node normalize balance
    balance_factor make_node key_at full split_inserted split_entries from_sorted_entries
    construct_all construct_back can_merge find_max find_min entry_at merge_left merge_right
    is_empty join_node rebuild merged
inserts = refl

-- A block that an erasure leaves too small for its neighbour stays; one that fits it is merged.
erases :
    erase_node pairs six 3
    ≡ ok (some (node (block (4 ∷ [])) (leaf_of (1 ∷ 2 ∷ [])) (leaf_of (5 ∷ 6 ∷ [])) 5 2))
unfolding erase_node side holds_at erase_here normalize_node normalize balance balance_factor
    make_node key_at value_at lower_bound bound_loop with_erased erased construct_all construct_back
    can_merge find_max find_min entry_at merge_left merge_right join_node rebuild
erases = refl

merges : erase_node pairs lopsided 6 ≡ ok (some (node (block (2 ∷ 4 ∷ [])) null null 2 1))
unfolding erase_node side holds_at erase_here normalize_node normalize balance balance_factor
    make_node rebuild key_at value_at lower_bound bound_loop with_erased erased construct_all
    construct_back can_merge find_max find_min entry_at merge_left merge_right merged erase_min
    erase_max join_node
merges = refl

-- Trees of heights that are two apart are joined on the higher one's side.
joins :
    join_node pairs (block (0 ∷ [])) null six
    ≡ ok (
        node
          (block (3 ∷ 4 ∷ []))
          (node (block (0 ∷ [])) null (leaf_of (1 ∷ 2 ∷ [])) 3 2)
          (leaf_of (5 ∷ 6 ∷ []))
          7
          3)
unfolding join_node rebuild balance balance_factor make_node
joins = refl

six-IsValid : IsValid pairs six
six-IsValid = record { avl = omega arith; sorted = order }
  where
    order : IsSorted (entries pairs six)
    order = (
      (refl, (refl, (refl, (refl, (refl, tt))))),
      (
        (refl, (refl, (refl, (refl, tt)))),
        ((refl, (refl, (refl, tt))), ((refl, (refl, tt)), ((refl, tt), (tt, tt)))),
      ),
    )

insert_node-Refines_blocks_example :
    Refines
      (IsValid pairs)
      (entries pairs)
      (insert_node pairs six 7 7)
      (Assoc.insert 7 7 (entries pairs six))
insert_node-Refines_blocks_example =
    insert_node-Refines_blocks pairs six 7 7 six-IsValid (omega arith)

update_node-Refines_blocks_example :
    Refines
      (IsValid pairs)
      (entries pairs)
      (update_node pairs six 4 9)
      (Assoc.update 4 9 (entries pairs six))
update_node-Refines_blocks_example =
    update_node-Refines_blocks pairs six 4 9 six-IsValid (λ b i h. can_update-inside b i 9 h)

erase_node-Refines_blocks_example :
    Refines
      (IsValid pairs)
      (entries pairs)
      (erase_node pairs six 3)
      (Assoc.erase 3 (entries pairs six))
erase_node-Refines_blocks_example = erase_node-Refines_blocks pairs six 3 six-IsValid

set_node-Gives_blocks_example :
    Gives
      (IsValid pairs)
      (entries pairs)
      (set_node pairs six 0 9)
      (Assoc.set 0 9 (entries pairs six))
set_node-Gives_blocks_example =
    set_node-Gives_blocks pairs six 0 9 six-IsValid (λ absent. omega arith)

join_node-Joined_example :
    Joined pairs (block (0 ∷ [])) null six (join_node pairs (block (0 ∷ [])) null six)
join_node-Joined_example =
    join_node-Joined pairs (block (0 ∷ [])) null six (omega arith) tt six-IsValid.avl (omega arith)

normalize_node-Gives_example :
    Normalize.Gives pairs
      (normalize_node pairs (block (0 ∷ [])) null six)
      ((0, 0) ∷ entries pairs six)
normalize_node-Gives_example =
    normalize_node-Gives pairs (block (0 ∷ [])) null six (omega arith) tt six-IsValid.avl
      (omega arith)

find_lem_blocks_example : find pairs six 4 ≡ ok (Assoc.find 4 (entries pairs six))
find_lem_blocks_example = find_lem_blocks pairs six 4 six-IsValid.avl six-IsValid.sorted

from_sorted_unique_blocks_example :
    (bs : List (ZipList (ℕ × ℕ))) × (pairs.pack_blocks (keyed (1 ∷ 2 ∷ 3 ∷ [])) ≡ ok bs)
    × (t : Numbers) × (from_sorted_unique pairs (keyed (1 ∷ 2 ∷ 3 ∷ [])) ≡ ok t)
    × IsAvl pairs t
    × (entries pairs t ≡ keyed (1 ∷ 2 ∷ 3 ∷ []))
    × IsLeastHeight (length bs) (height t)
from_sorted_unique_blocks_example =
    from_sorted_unique_blocks pairs (keyed (1 ∷ 2 ∷ 3 ∷ []))
      ((refl, (refl, tt)), ((refl, tt), (tt, tt))) (omega arith)

repeated : ¬ IsSorted {K = ℕ} {V = ℕ} ((1, 1) ∷ (1, 2) ∷ [])
repeated sorted = cc sorted.0.0

from_sorted_unique_unsorted_blocks_example :
    from_sorted_unique pairs ((1, 1) ∷ (1, 2) ∷ []) ≡ throw Error.not_sorted
from_sorted_unique_unsorted_blocks_example =
    from_sorted_unique_unsorted_blocks pairs ((1, 1) ∷ (1, 2) ∷ []) repeated

-- A callback that sums the values and stops at a sum of six.
abbrev sum_to_six : ℕ → ℕ → ℕ → ℕ × Bool
sum_to_six st k v = (st + v, ltb (st + v) 6)

for_each_until-to_vector_blocks_example :
    for_each_until pairs sum_to_six six 0
    ≡ ok (visit_until (λ (st : ℕ) (e : ℕ × ℕ). sum_to_six st e.0 e.1) (to_vector pairs six) 0)
for_each_until-to_vector_blocks_example = for_each_until-to_vector_blocks pairs sum_to_six six 0
