-- ===== src/ZipList.antt =====
-- immutable_container/include/immutable_container/zip_list.h: the primary template, a block of at most
-- `capacity` entries. The storage is the list of the entries that are constructed: its length is
-- `count_`, and an entry behind them is not there to be read.
pub mod Bound
pub mod Edit
pub mod Split
pub mod AsBlocks
mod Examples
use cpp_util.Util.{
  ℕ, zero, suc, ◌+◌, ◌-◌, ◌/◌, ◌≤◌, min, Bool, true, false, not, ◌||◌, Option, none, some, List, [],
  ◌∷◌, ◌++◌, ltb, leb, if◌then◌else◌, ◌==◌, get_elem?, length, take, drop,
}
use cpp_util.Container.Comparator.{Comparator}
use cpp_util.Container.Outcome.{Outcome, ok, throw, Error, ◌>>=◌}

-- `ComputeCapacity`, from the target and the size of an entry in bytes.
unfoldable pub compute_capacity : ℕ → ℕ → ℕ
compute_capacity target_bytes entry_bytes =
    let raw = target_bytes / entry_bytes in if raw == 0 then 1 else raw

pub record ZipList {ℓ} (E : Type ℓ) : Type ℓ where
  pub slots : List E

module _ {ℓ} {E : Type ℓ} where
  abbrev pub count : ZipList E → ℕ
  count z = length z.slots

  -- `operator[]`.
  unfoldable pub entry_at : ZipList E → ℕ → Outcome E
  entry_at z i = elim (get_elem? z.slots i) [ none ↦ throw Error.out_of_range | some e ↦ ok e ]

  -- `Front`, `Back`.
  unfoldable pub front : ZipList E → Outcome E
  front z = entry_at z 0

  unfoldable pub back : ZipList E → Outcome E
  back z = entry_at z (count z - 1)

  -- `AppendTo`, `ToVector`.
  unfoldable pub append_to : ZipList E → List E → List E
  append_to z output = output ++ z.slots

  unfoldable pub to_vector : ZipList E → List E
  to_vector z = append_to z []

  -- The entries whose index is not the given one.
  unfoldable pub erased : ℕ → List E → List E
  erased i [] = []
  erased zero (e ∷ es) = es
  erased (suc i) (e ∷ es) = e ∷ erased i es

  abbrev pub new_list : ZipList E
  new_list = record { slots = [] }

module _ {ℓ} (capacity : ℕ) {E : Type ℓ} where
  unfoldable pub full : ZipList E → Bool
  full z = count z == capacity

  -- `ConstructBack`, and the loops that call it for one entry after the other.
  unfoldable pub construct_back : ZipList E → E → Outcome (ZipList E)
  construct_back z e = elim (ltb (count z) capacity) [
    | false ↦ throw Error.out_of_range
    | true ↦ ok (record { slots = z.slots ++ e ∷ [] })
  ]

  unfoldable pub construct_all : ZipList E → List E → Outcome (ZipList E)
  construct_all z [] = ok z
  construct_all z (e ∷ es) = construct_back z e >>= λ z'. construct_all z' es

  -- `CopyFrom`, into an empty list.
  unfoldable pub copy_from : ZipList E → Outcome (ZipList E)
  copy_from other = construct_all new_list other.slots

  unfoldable pub from_sorted_entries : List E → Outcome (ZipList E)
  from_sorted_entries es =
      if ltb capacity (length es) then throw Error.exceeds_capacity else construct_all new_list es

  -- `PackSortedEntriesIntoBlocks`: the loop from `begin` on.
  unfoldable pub pack_from : ℕ → List E → ℕ → Outcome (List (ZipList E))
  pack_from zero es begin = throw Error.no_fuel
  pack_from (suc fuel) es begin = elim (ltb begin (length es)) [
    | false ↦ ok []
    | true ↦
        let end = min (length es) (begin + capacity) in
        from_sorted_entries (take (end - begin) (drop begin es)) >>= λ block.
        pack_from fuel es end >>= λ blocks. ok (block ∷ blocks)
  ]

  -- With at least one entry for each block.
  unfoldable pub pack_blocks : List E → Outcome (List (ZipList E))
  pack_blocks es = pack_from (length es + 1) es 0

  unfoldable pub with_erased : ZipList E → ℕ → Outcome (ZipList E)
  with_erased z index = elim (ltb index (count z)) [
    | false ↦ throw Error.bad_index
    | true ↦ construct_all new_list (erased index z.slots)
  ]

  unfoldable pub can_merge : ZipList E → ZipList E → Bool
  can_merge a b = leb (count a + count b) capacity

  unfoldable pub merged : ZipList E → ZipList E → Outcome (ZipList E)
  merged a b = elim (can_merge a b) [
    | false ↦ throw Error.merge_exceeds
    | true ↦ construct_all new_list a.slots >>= λ result. construct_all result b.slots
  ]

  -- Two lists of the halves of the entries.
  unfoldable pub split_entries : List E → Outcome (List (ZipList E))
  split_entries es =
      let split = length es / 2 in
      from_sorted_entries (take split es) >>= λ lower.
      from_sorted_entries (drop split es) >>= λ upper. ok (lower ∷ upper ∷ [])

module _ {ℓ} {K V : Type ℓ} where
  -- `KeyAt` (and `KeyAtTransient`), `ValueAt`.
  unfoldable pub key_at : ZipList (K × V) → ℕ → Outcome K
  key_at z i = entry_at z i >>= λ e. ok e.0

  unfoldable pub value_at : ZipList (K × V) → ℕ → Outcome V
  value_at z i = entry_at z i >>= λ e. ok e.1

  unfoldable pub can_update : ZipList (K × V) → ℕ → V → Bool
  can_update z i v = ltb i (count z)

  -- The entries, with the value at the index replaced.
  unfoldable pub updated : ℕ → V → List (K × V) → List (K × V)
  updated i v [] = []
  updated zero v (e ∷ es) = (e.0, v) ∷ es
  updated (suc i) v (e ∷ es) = e ∷ updated i v es

module _ {ℓ} (capacity : ℕ) {K V : Type ℓ} where
  unfoldable pub can_insert : ZipList (K × V) → K → V → Bool
  can_insert z k v = not (full capacity z)

  unfoldable pub with_inserted : ZipList (K × V) → ℕ → K → V → Outcome (ZipList (K × V))
  with_inserted z index k v =
      if full capacity z
      then throw Error.full_block
      else if ltb (count z) index
      then throw Error.bad_index
      else construct_all capacity new_list (take index z.slots) >>= λ result.
          construct_back capacity result (k, v) >>= λ result'.
          construct_all capacity result' (drop index z.slots)

  unfoldable pub with_updated : ZipList (K × V) → ℕ → V → Outcome (ZipList (K × V))
  with_updated z index v =
      if leb (count z) index
      then throw Error.bad_index
      else construct_all capacity new_list (updated index v z.slots)

  -- `SplitWithUpdated`, `SplitWithUpdatedBlocks`.
  unfoldable pub split_updated : ZipList (K × V) → ℕ → V → Outcome (List (ZipList (K × V)))
  split_updated z index v =
      if leb (count z) index
      then throw Error.bad_index
      else if ltb (count z) 2
      then throw Error.single_entry
      else split_entries capacity (updated index v z.slots)

  -- `SplitWithInserted`, `SplitWithInsertedBlocks`.
  unfoldable pub split_inserted : ZipList (K × V) → ℕ → K → V → Outcome (List (ZipList (K × V)))
  split_inserted z index k v =
      if ltb (count z) index
      then throw Error.bad_index
      else split_entries capacity (take index z.slots ++ (k, v) ∷ drop index z.slots)

module _ {ℓ} {K V : Type ℓ} ⦃c : Comparator K⦄ where
  -- `LowerBound`: the loop over `first` and `length`. Its length falls in each round.
  unfoldable pub bound_loop : ℕ → ZipList (K × V) → K → ℕ → ℕ → Outcome ℕ
  bound_loop zero z q first left = throw Error.no_fuel
  bound_loop (suc fuel) z q first left = elim (left == 0) [
    | true ↦ ok first
    | false ↦
        let half = left / 2 in
        let middle = first + half in
        entry_at z middle >>= λ e. elim (c.less e.0 q) [
          | true ↦ bound_loop fuel z q (middle + 1) (left - (half + 1))
          | false ↦ bound_loop fuel z q first half
        ]
  ]

  unfoldable pub lower_bound : ZipList (K × V) → K → Outcome ℕ
  lower_bound z q = bound_loop (count z + 1) z q 0 (count z)

  -- `FindEntry`, `Find`, `FindValue`.
  unfoldable pub find_entry : ZipList (K × V) → K → Outcome (Option (K × V))
  find_entry z q = lower_bound z q >>= λ index. elim (index == count z) [
    | true ↦ ok none
    | false ↦ entry_at z index >>= λ e. elim (c.less q e.0 || c.less e.0 q) [
      | true ↦ ok none
      | false ↦ ok (some e)
    ]
  ]

  unfoldable pub find_value : ZipList (K × V) → K → Outcome (Option V)
  find_value z q = find_entry z q >>= λ o. elim o [ none ↦ ok none | some e ↦ ok (some e.1) ]
