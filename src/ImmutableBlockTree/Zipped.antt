-- ===== src/ImmutableBlockTree/Zipped.antt =====
-- The tree of zip_list.h's blocks as the `Tree` of a map or a set.
use cpp_util.Util.{ℕ, ◌≤◌}
use cpp_util.Container.Comparator.{Comparator}
use cpp_util.Container.Store.{Store}
use cpp_util.ImmutableBlockTree.AsStore.{block_store}
use cpp_util.ZipList.AsBlocks.{zip_blocks, can_update-inside}

module _ {ℓ} {K V : Type ℓ} ⦃c : Comparator K⦄ where
  -- Every update of an entry fits its block.
  abbrev pub zip_store : (capacity : ℕ) → 1 ≤ capacity → Store K V
  zip_store capacity pos = block_store (zip_blocks capacity pos) can_update-inside
