-- ===== src/ImmutableTree/AsStore.antt =====
-- The AVL tree as the ordered tree that a map or a set is put over.
use cpp_util.Util.{refl, sym, length}
use cpp_util.Container.Comparator.{Comparator}
use cpp_util.Container.Store.{Store, Gives}
use cpp_util.Util.{List, ◌≤◌}
use cpp_util.Container.Assoc.{IsSorted}
use cpp_util.Util.{subst}
use cpp_util.Util.{◌==◌, is_some, arith, ◌≡◌}
use cpp_util.ImmutableTree.{contains, is_empty, node}
use cpp_util.ImmutableTree.{
  Tree, null, size, find, insert_node, update_node, erase_node, set_node, to_vector,
  from_sorted_unique, u32_max,
}
use cpp_util.ImmutableTree.Avl.{entries, to_vector-entries, length-entries}
use cpp_util.ImmutableTree.Build.{from_sorted_unique_sorted}
use cpp_util.ImmutableTree.Read.{find_lem}
use cpp_util.ImmutableTree.Refine.{
  IsValid, insert_node-Refines, update_node-Refines, erase_node-Refines, set_node-Gives,
}

module _ {ℓ} {K V : Type ℓ} ⦃c : Comparator K⦄ where
  pub from_sorted_unique-Gives :
      (es : List (K × V))
      → IsSorted es
      → length es ≤ u32_max
      → Gives IsValid entries (from_sorted_unique es) es
  from_sorted_unique-Gives es sorted fits =
      let (t, made, avl, content, least) = from_sorted_unique_sorted es sorted fits in
      (t, made, record { avl = avl; sorted = subst IsSorted (sym content) sorted }, content)

  pub is_empty-size : (t : Tree K V) → IsValid t → is_empty t ≡ (size t == 0)
  unfolding is_empty
  is_empty-size null valid = refl
  is_empty-size (node k v l r s h) valid = ground (arith, valid.avl.2)

  pub contains-find : (t : Tree K V) (q : K) → contains t q ≡ is_some (find t q)
  unfolding contains
  contains-find t q = refl

  abbrev pub tree_store : Store K V
  tree_store = record {
    T = Tree K V;
    IsValid = IsValid;
    view = entries;
    empty = null;
    size = size;
    is_empty = is_empty;
    find = find;
    contains = contains;
    to_vector = to_vector;
    insert = insert_node;
    update = update_node;
    erase = erase_node;
    set = set_node;
    from_sorted_unique = from_sorted_unique;
    valid_sorted = λ t valid. valid.sorted;
    empty_valid = record { avl = tt; sorted = tt };
    empty_view = refl;
    size_view = λ t valid. sym (length-entries t valid.avl);
    is_empty_size = is_empty-size;
    contains_find = contains-find;
    find_view = λ t q valid. find_lem t q valid.avl valid.sorted;
    to_vector_view = to_vector-entries;
    insert_view = insert_node-Refines;
    update_view = update_node-Refines;
    erase_view = erase_node-Refines;
    set_view = set_node-Gives;
    from_sorted_view = from_sorted_unique-Gives;
  }
