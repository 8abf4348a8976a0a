-- ===== src/ImmutableBlockTree/AsStore.antt =====
-- The tree of blocks as the ordered tree that a map or a set is put over.
use cpp_util.Util.{
  ℕ, ◌≤◌, ◌<◌, ◌==◌, ◌≡◌, refl, sym, subst, length, List, Bool, true, false, Option, none, is_some,
  arith,
}
use cpp_util.Container.Comparator.{Comparator}
use cpp_util.Container.Blocks.{Blocks}
use cpp_util.Container.Outcome.{Outcome, ok, throw, ◌>>=◌}
use cpp_util.Container.Store.{Store, Gives, u32_max}
use cpp_util.Container.Assoc
use cpp_util.Container.Assoc.{IsSorted}
use cpp_util.ImmutableBlockTree.{
  Tree, null, node, size, is_empty, find, contains, insert_node, update_node, erase_node, set_node,
  to_vector, from_sorted_unique,
}
use cpp_util.ImmutableBlockTree.Avl.{entries, to_vector-entries, length-entries}
use cpp_util.ImmutableBlockTree.Build.{from_sorted_unique_blocks}
use cpp_util.ImmutableBlockTree.Read.{find_lem_blocks}
use cpp_util.ImmutableBlockTree.Refine.{
  IsValid, insert_node-Refines_blocks, update_node-Refines_blocks, erase_node-Refines_blocks,
  set_node-Gives_blocks,
}

module _ {ℓ} {K V : Type ℓ} ⦃c : Comparator K⦄ (S : Blocks K V) where
  open S use {B}

  -- The results of the lookups, and some result where they throw.
  abbrev pub found : Outcome (Option V) → Option V
  found (ok o) = o
  found (throw e) = none

  abbrev pub holds : Outcome Bool → Bool
  holds (ok b) = b
  holds (throw e) = false

  pub from_sorted_unique-Gives_blocks :
      (es : List (K × V))
      → IsSorted es
      → length es ≤ u32_max
      → Gives (IsValid S) (entries S) (from_sorted_unique S es) es
  from_sorted_unique-Gives_blocks es sorted fits =
      let (bs, packed, t, made, avl, content, least) = from_sorted_unique_blocks S es sorted fits in
      (t, made, record { avl = avl; sorted = subst IsSorted (sym content) sorted }, content)

  pub is_empty-size_blocks : (t : Tree B) → IsValid S t → is_empty t ≡ (size t == 0)
  unfolding is_empty
  is_empty-size_blocks null valid = refl
  is_empty-size_blocks (node b l r s h) valid =
      let (al, ar, es, eh, dl, dr, room, kb) = valid.avl in
      let some_entry = S.count_pos b kb in ground arith

  pub contains-find_blocks :
      (t : Tree B) (q : K) → holds (contains S t q) ≡ is_some (found (find S t q))
  unfolding contains
  contains-find_blocks t q = by_outcome (find S t q)
    where
      by_outcome : (m : Outcome (Option V)) → holds (m >>= λ o. ok (is_some o)) ≡ is_some (found m)
      by_outcome (ok o) = refl
      by_outcome (throw e) = refl

  pub found-find :
      (t : Tree B) (q : K) → IsValid S t → found (find S t q) ≡ Assoc.find q (entries S t)
  found-find t q valid = rw (find_lem_blocks S t q valid.avl valid.sorted) refl

  -- Over blocks in which every update fits.
  abbrev pub block_store :
      ((b : B) (i : ℕ) (w : V) → i < S.count b → S.can_update b i w ≡ true) → Store K V
  block_store keeps = record {
    T = Tree B;
    IsValid = IsValid S;
    view = entries S;
    empty = null;
    size = size;
    is_empty = is_empty;
    find = λ t q. found (find S t q);
    contains = λ t q. holds (contains S t q);
    to_vector = to_vector S;
    insert = insert_node S;
    update = update_node S;
    erase = erase_node S;
    set = set_node S;
    from_sorted_unique = from_sorted_unique S;
    valid_sorted = λ t valid. valid.sorted;
    empty_valid = record { avl = tt; sorted = tt };
    empty_view = refl;
    size_view = λ t valid. sym (length-entries S t valid.avl);
    is_empty_size = is_empty-size_blocks;
    contains_find = contains-find_blocks;
    find_view = found-find;
    to_vector_view = to_vector-entries S;
    insert_view = insert_node-Refines_blocks S;
    update_view = λ t q w valid. update_node-Refines_blocks S t q w valid (λ b i. keeps b i w);
    erase_view = erase_node-Refines_blocks S;
    set_view = set_node-Gives_blocks S;
    from_sorted_view = from_sorted_unique-Gives_blocks;
  }
