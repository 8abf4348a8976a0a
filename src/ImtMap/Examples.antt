-- ===== src/ImtMap/Examples.antt =====
-- Maps of numbers over the AVL tree, with an insertion sort: tests, and the theorems at them.
use mathlib.Core.List.{Perm}
use mathlib.Core.List.Perm
use cpp_util.Util.{
  ℕ, ◌≡◌, refl, List, [], ◌∷◌, true, false, arith, Bool-cases, inl, inr, some, none, All, All-imp,
}
use cpp_util.Container.Comparator.{Comparator, nat_less, less_asymm}
use cpp_util.Container.Outcome.{ok}
use cpp_util.Container.Store.{Store}
use cpp_util.ImmutableTree
use cpp_util.ImmutableTree.{Tree, null, node}
use cpp_util.ImmutableTree.AsStore.{tree_store}
use cpp_util.ImmutableBlockTree.Zipped.{zip_store}
use cpp_util.ImtMap.{
  ImtMap, empty_map, empty, size, find, contains, insert, update, erase, set, to_vector,
  has_duplicate, from_entries,
}
use cpp_util.ImtMap.Laws.{
  IsValid, Inserted, Changed, IsUpdate, insert-Inserted, update-Changed, erase-Changed,
  set-IsUpdate,
}
use cpp_util.ImtMap.FromEntries.{Sorts, IsInOrder, Made, from_entries-Made}

module _ {ℓ} {K V : Type ℓ} ⦃c : Comparator K⦄ where
  insert_entry : K × V → List (K × V) → List (K × V)
  insert_entry e [] = e ∷ []
  insert_entry e (x ∷ xs) = elim (c.less x.0 e.0) [
    | true ↦ x ∷ insert_entry e xs
    | false ↦ e ∷ x ∷ xs
  ]

  insertion_sort : List (K × V) → List (K × V)
  insertion_sort [] = []
  insertion_sort (e ∷ es) = insert_entry e (insertion_sort es)

  insert_entry-Perm : (e : K × V) (xs : List (K × V)) → Perm (insert_entry e xs) (e ∷ xs)
  unfolding insert_entry
  insert_entry-Perm e [] = Perm.refl (e ∷ [])
  insert_entry-Perm e (x ∷ xs) = elim (Bool-cases (c.less x.0 e.0)) [
    | inl p ↦
        rw (p, insert_entry) (Perm.trans (Perm.cons x (insert_entry-Perm e xs)) (Perm.swap e x xs))
    | inr n ↦ rw (n, insert_entry) (Perm.refl (e ∷ x ∷ xs))
  ]

  insertion_sort-Perm : (es : List (K × V)) → Perm (insertion_sort es) es
  unfolding insertion_sort
  insertion_sort-Perm [] = Perm.refl []
  insertion_sort-Perm (e ∷ es) =
      Perm.trans (insert_entry-Perm e (insertion_sort es)) (Perm.cons e (insertion_sort-Perm es))

  insert_entry-All :
      (P : K × V → Type 0) (e : K × V) (xs : List (K × V))
      → P e
      → All P xs
      → All P (insert_entry e xs)
  unfolding insert_entry
  insert_entry-All P e [] p h = (p, tt)
  insert_entry-All P e (x ∷ xs) p h = elim (Bool-cases (c.less x.0 e.0)) [
    | inl q ↦ rw (q, insert_entry) (h.0, insert_entry-All P e xs p h.1)
    | inr n ↦ rw (n, insert_entry) (p, h)
  ]

  insert_entry-IsInOrder :
      (e : K × V) (xs : List (K × V)) → IsInOrder xs → IsInOrder (insert_entry e xs)
  unfolding insert_entry
  insert_entry-IsInOrder e [] h = (tt, tt)
  insert_entry-IsInOrder e (x ∷ xs) h = elim (Bool-cases (c.less x.0 e.0)) [
    | inl q ↦
        rw (q, insert_entry)
          (
            insert_entry-All (λ y. c.less y.0 x.0 ≡ false) e xs (less_asymm x.0 e.0 q) h.0,
            insert_entry-IsInOrder e xs h.1,
          )
    | inr n ↦
        rw (n, insert_entry)
          (
            (
              n,
              All-imp (λ y. c.less y.0 x.0 ≡ false) (λ y. c.less y.0 e.0 ≡ false)
                  (λ y m. c.cotrans y.0 x.0 e.0 m n) xs h.0,
            ),
            h,
          )
  ]

  insertion_sort-IsInOrder : (es : List (K × V)) → IsInOrder (insertion_sort es)
  unfolding insertion_sort
  insertion_sort-IsInOrder [] = tt
  insertion_sort-IsInOrder (e ∷ es) =
      insert_entry-IsInOrder e (insertion_sort es) (insertion_sort-IsInOrder es)

  insertion_sort-Sorts : Sorts insertion_sort
  insertion_sort-Sorts = record {
    permutes = insertion_sort-Perm;
    orders = insertion_sort-IsInOrder;
  }

abbrev numbers : Store ℕ ℕ
numbers = tree_store {K = ℕ} {V = ℕ}

abbrev Numbers : Type 0
Numbers = ImtMap numbers

-- The keys 1 and 2.
abbrev pair : Numbers
pair = record { tree = node 1 1 null (node 2 2 null null 1 1) 2 2 }

pair-IsValid : IsValid numbers pair
pair-IsValid = record { avl = omega arith; sorted = ((refl, tt), (tt, tt)) }

reads :
    (empty numbers pair ≡ false) × (contains numbers pair 2 ≡ true) × (find numbers pair 3 ≡ none)
unfolding empty contains find ImmutableTree.find ImmutableTree.contains ImmutableTree.is_empty
reads = (refl, refl, refl)

starts_empty :
    (empty numbers (empty_map numbers) ≡ true)
    × (to_vector numbers pair ≡ (1, 1) ∷ (2, 2) ∷ [])
    × (size numbers pair ≡ 2)
unfolding empty ImmutableTree.is_empty empty_map to_vector size ImmutableTree.to_vector
    ImmutableTree.append_in_order
starts_empty = (refl, refl, refl)

refuses_duplicates :
    (has_duplicate numbers ((1, 1) ∷ (2, 2) ∷ (2, 3) ∷ []) ≡ true)
    × (from_entries numbers insertion_sort ((2, 2) ∷ (1, 1) ∷ (2, 3) ∷ []) ≡ ok none)
unfolding has_duplicate from_entries insertion_sort insert_entry
refuses_duplicates = (refl, refl)

insert-Inserted_example : Inserted numbers 3 9 pair (insert numbers pair 3 9)
insert-Inserted_example = insert-Inserted numbers pair 3 9 pair-IsValid (unfold size in omega arith)

update-Changed_example : Changed numbers 2 (some 9) pair (update numbers pair 2 9)
update-Changed_example = update-Changed numbers pair 2 9 pair-IsValid

erase-Changed_example : Changed numbers 1 none pair (erase numbers pair 1)
erase-Changed_example = erase-Changed numbers pair 1 pair-IsValid

set-IsUpdate_example :
    (m : Numbers) × (set numbers pair 3 9 ≡ ok m) × IsUpdate numbers 3 (some 9) pair m
set-IsUpdate_example =
    set-IsUpdate numbers pair 3 9 pair-IsValid (λ absent. unfold size in omega arith)

from_entries-Made_example :
    Made numbers ((2, 2) ∷ (1, 1) ∷ []) (from_entries numbers insertion_sort ((2, 2) ∷ (1, 1) ∷ []))
from_entries-Made_example =
    from_entries-Made numbers insertion_sort ((2, 2) ∷ (1, 1) ∷ []) insertion_sort-Sorts
      (omega arith)

-- A map over blocks of two entries.
abbrev blocks : Store ℕ ℕ
blocks = zip_store 2 (omega arith)

inserts_in_blocks : Inserted blocks 3 9 (empty_map blocks) (insert blocks (empty_map blocks) 3 9)
unfolding empty_map
inserts_in_blocks =
    insert-Inserted blocks (empty_map blocks) 3 9 (record { avl = tt; sorted = tt })
      (unfold size in omega arith)
