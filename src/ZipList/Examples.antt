-- ===== src/ZipList/Examples.antt =====
-- Small blocks: tests of the operations, and the theorems at them.
use cpp_util.Util.{ℕ, ◌≡◌, refl, [], ◌∷◌, arith, some, none, length}
use cpp_util.Container.Comparator.{nat_less}
use cpp_util.Container.Blocks.{Splits}
use cpp_util.Container.Outcome.{ok, throw, Error}
use cpp_util.Container.Assoc
use cpp_util.Container.Assoc.{cut}
use cpp_util.ZipList.{
  ZipList, compute_capacity, entry_at, front, back, new_list, construct_all, construct_back,
  copy_from, from_sorted_entries, pack_blocks, pack_from, with_erased, erased, merged, can_merge,
  full, with_inserted, with_updated, updated, split_inserted, split_entries, lower_bound,
  bound_loop, find_entry, find_value, key_at, value_at,
}
use cpp_util.ZipList.Bound.{lower_bound-length, find_value-find}
use cpp_util.ZipList.Edit.{filled}
use cpp_util.ZipList.Split.{IsBlock, Packs, pack_blocks-Packs, split_inserted-halves}

abbrev Block : Type 0
Block = ZipList (ℕ × ℕ)

abbrev three : Block
three = filled ((1, 10) ∷ (3, 30) ∷ (5, 50) ∷ [])

-- An entry that is larger than the target has a block of its own.
least : compute_capacity 4096 5000 ≡ 1
unfolding compute_capacity
least = refl

ends : (front three ≡ ok (1, 10)) × (back three ≡ ok (5, 50))
unfolding front back entry_at
ends = (refl, refl)

reads : (key_at three 1 ≡ ok 3) × (value_at three 2 ≡ ok 50)
unfolding key_at value_at entry_at
reads = (refl, refl)

empty_front : front (new_list {E = ℕ × ℕ}) ≡ throw Error.out_of_range
unfolding front entry_at
empty_front = refl

searches :
    (lower_bound three 3 ≡ ok 1) × (lower_bound three 4 ≡ ok 2) × (lower_bound three 9 ≡ ok 3)
unfolding lower_bound bound_loop entry_at
searches = (refl, refl, refl)

finds : (find_value three 3 ≡ ok (some 30)) × (find_value three 4 ≡ ok none)
unfolding find_value find_entry lower_bound bound_loop entry_at
finds = (refl, refl)

inserts : with_inserted 4 three 1 2 20 ≡ ok (filled ((1, 10) ∷ (2, 20) ∷ (3, 30) ∷ (5, 50) ∷ []))
unfolding with_inserted full construct_all construct_back
inserts = refl

refuses : with_inserted 3 three 1 2 20 ≡ throw Error.full_block
unfolding with_inserted full
refuses = refl

updates : with_updated 3 three 1 9 ≡ ok (filled ((1, 10) ∷ (3, 9) ∷ (5, 50) ∷ []))
unfolding with_updated updated construct_all construct_back
updates = refl

erases : with_erased 3 three 0 ≡ ok (filled ((3, 30) ∷ (5, 50) ∷ []))
unfolding with_erased erased construct_all construct_back
erases = refl

merges : merged 3 three three ≡ throw Error.merge_exceeds
unfolding merged can_merge
merges = refl

splits :
    split_inserted 3 three 1 2 20
    ≡ ok (filled ((1, 10) ∷ (2, 20) ∷ []) ∷ filled ((3, 30) ∷ (5, 50) ∷ []) ∷ [])
unfolding split_inserted split_entries from_sorted_entries construct_all construct_back
splits = refl

packs :
    pack_blocks 2 three.slots ≡ ok (filled ((1, 10) ∷ (3, 30) ∷ []) ∷ filled ((5, 50) ∷ []) ∷ [])
unfolding pack_blocks pack_from from_sorted_entries construct_all construct_back
packs = refl

copies : copy_from 3 three ≡ ok three
unfolding copy_from construct_all construct_back
copies = refl

exceeds : from_sorted_entries 2 three.slots ≡ throw Error.exceeds_capacity
unfolding from_sorted_entries
exceeds = refl

lower_bound-length_example : lower_bound three 4 ≡ ok (length (cut 4 three.slots).below)
lower_bound-length_example = lower_bound-length three 4 ((refl, (refl, tt)), ((refl, tt), (tt, tt)))

find_value-find_example : find_value three 3 ≡ ok (Assoc.find 3 three.slots)
find_value-find_example = find_value-find three 3 ((refl, (refl, tt)), ((refl, tt), (tt, tt)))

pack_blocks-Packs_example : Packs 2 (pack_blocks 2 three.slots) three.slots
pack_blocks-Packs_example = pack_blocks-Packs 2 three.slots (omega arith)

split_inserted-halves_example :
    Splits
      (IsBlock 3)
      ZipList.slots
      (split_inserted 3 three 1 2 20)
      ((1, 10) ∷ (2, 20) ∷ (3, 30) ∷ (5, 50) ∷ [])
split_inserted-halves_example =
    split_inserted-halves 3 three 1 2 20 ((1, 10) ∷ []) ((3, 30) ∷ (5, 50) ∷ [])
      (omega arith, omega arith) refl refl
