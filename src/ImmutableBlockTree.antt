-- ===== src/ImmutableBlockTree.antt =====
-- immutable_container/include/immutable_container/immutable_block_tree.h: the persistent AVL tree of
-- blocks. Nodes are never changed once made, so a node is a value. A read of a key that a block does
-- not hold, and one through a null pointer, throw.
pub mod Avl
pub mod Rotate
pub mod Balance
pub mod Join
pub mod Normalize
pub mod InBlock
pub mod Sides
pub mod Passed
pub mod Insert
pub mod Change
pub mod Erase
pub mod Set
pub mod Refine
pub mod Read
pub mod Build
pub mod AsStore
pub mod Zipped
mod Examples
use cpp_util.Util.{
  ℕ, zero, suc, ◌+◌, ◌-◌, ◌*◌, ◌/◌, ◌%◌, ◌^◌, max, Bool, true, false, ◌||◌, ◌&&◌, not, Option, none,
  some, List, [], ◌∷◌, ◌++◌, ltb, if◌then◌else◌, ◌==◌, get_elem?, length, is_some,
}
use cpp_util.Util.Int.{ℤ, pos, negsuc, sub_ℕ, ltb_ℤ}
use cpp_util.Container.Comparator.{Comparator}
use cpp_util.Container.Blocks.{Blocks}
use cpp_util.Container.Store.{u32_max}
use cpp_util.ImmutableTree.{lift}
use cpp_util.Container.Outcome.{Outcome, ok, throw, Error, ◌>>=◌}

-- `NodePtr`: the null pointer, or a node with the fields of `Node` in their order.
pub data Tree {ℓ} (B : Type ℓ) : Type ℓ where
  null : Tree B
  node : B → Tree B → Tree B → ℕ → ℕ → Tree B

abbrev pub u16_max : ℕ
u16_max = 65535

module _ {ℓ} {B : Type ℓ} where
  abbrev pub height : Tree B → ℕ
  height null = 0
  height (node b l r s h) = h

  abbrev pub size : Tree B → ℕ
  size null = 0
  size (node b l r s h) = s

  -- `Empty`.
  unfoldable pub is_empty : Tree B → Bool
  is_empty null = true
  is_empty (node b l r s h) = false

  -- `BalanceFactor`, an `int`.
  pub balance_factor : Tree B → ℤ
  balance_factor null = pos 0
  balance_factor (node b l r s h) = sub_ℕ (height l) (height r)

  -- `FindMin` and `FindMax`, of which a caller reads the block.
  pub find_min : Tree B → Outcome B
  find_min null = throw Error.null_read
  find_min (node b null r s h) = ok b
  find_min (node b (node lb ll lr ls lh) r s h) = find_min (node lb ll lr ls lh)

  pub find_max : Tree B → Outcome B
  find_max null = throw Error.null_read
  find_max (node b l null s h) = ok b
  find_max (node b l (node rb rl rr rs rh) s h) = find_max (node rb rl rr rs rh)

-- Where a walk goes on from a node: `Less(key, front)`, `Less(back, key)`, or neither.
pub data Side : Type 0 where
  to_left inside to_right : Side

module _ {ℓ} {K V : Type ℓ} ⦃c : Comparator K⦄ (S : Blocks K V) where
  open S use {B}

  -- `MakeNode`. The two casts keep their wrap-around.
  pub make_node : B → Tree B → Tree B → Outcome (Tree B)
  make_node b l r =
      let h = 1 + max (height l) (height r) in
      if ltb u16_max h
      then throw Error.height_exceeds
      else if ltb u32_max (S.count b)
          || (ltb (u32_max - S.count b) (size l) || ltb (u32_max - S.count b - size l) (size r))
      then throw Error.size_exceeds
      else ok (node b l r ((S.count b + size l + size r) % 2 ^ 32) (h % 2 ^ 16))

  -- `RotateLeft` reads `node->right->left`.
  pub rotate_left : Tree B → Outcome (Tree B)
  rotate_left null = throw Error.null_read
  rotate_left (node b l null s h) = throw Error.null_read
  rotate_left (node b l (node pb moved pr ps ph) s h) =
      make_node b l moved >>= λ new_left. make_node pb new_left pr

  pub rotate_right : Tree B → Outcome (Tree B)
  rotate_right null = throw Error.null_read
  rotate_right (node b null r s h) = throw Error.null_read
  rotate_right (node b (node pb pl moved ps ph) r s h) =
      make_node b moved r >>= λ new_right. make_node pb pl new_right

  -- `Balance`.
  pub balance : Tree B → Outcome (Tree B)
  balance null = ok null
  balance (node b l r s h) =
      let factor = balance_factor (node b l r s h) in
      if ltb_ℤ (pos 1) factor
      then (if ltb_ℤ (balance_factor l) (pos 0)
          then rotate_left l >>= (λ new_left. make_node b new_left r >>= rotate_right)
          else rotate_right (node b l r s h))
      else if ltb_ℤ factor (negsuc 0)
      then (if ltb_ℤ (pos 0) (balance_factor r)
          then rotate_right r >>= (λ new_right. make_node b l new_right >>= rotate_left)
          else rotate_left (node b l r s h))
      else ok (node b l r s h)

  -- `MakeBalanced`.
  pub rebuild : B → Tree B → Tree B → Outcome (Tree B)
  rebuild b l r = make_node b l r >>= balance

  -- `JoinNode`. A subtree that is higher by two is a node, so that its children can be read.
  pub join_node : B → Tree B → Tree B → Outcome (Tree B)
  join_node b null null = rebuild b null null
  join_node b null (node rb rl rr rs rh) = elim (ltb 1 rh) [
    | true ↦ join_node b null rl >>= λ joined_left. rebuild rb joined_left rr
    | false ↦ rebuild b null (node rb rl rr rs rh)
  ]
  join_node b (node lb ll lr ls lh) null = elim (ltb 1 lh) [
    | true ↦ join_node b lr null >>= λ joined_right. rebuild lb ll joined_right
    | false ↦ rebuild b (node lb ll lr ls lh) null
  ]
  join_node b (node lb ll lr ls lh) (node rb rl rr rs rh) = elim (ltb (rh + 1) lh) [
    | true ↦ join_node b lr (node rb rl rr rs rh) >>= λ joined_right. rebuild lb ll joined_right
    | false ↦ elim (ltb (lh + 1) rh) [
      | true ↦ join_node b (node lb ll lr ls lh) rl >>= λ joined_left. rebuild rb joined_left rr
      | false ↦ rebuild b (node lb ll lr ls lh) (node rb rl rr rs rh)
    ]
  ]

  -- `EraseMinNode`, `EraseMaxNode`, `NormalizeNode` with its two loops. The first number is fuel.
  mutual
    pub erase_min : ℕ → Tree B → Outcome (Tree B)
    erase_min zero t = throw Error.no_fuel
    erase_min (suc fuel) null = throw Error.null_read
    erase_min (suc fuel) (node b null r s h) = ok r
    erase_min (suc fuel) (node b (node lb ll lr ls lh) r s h) =
        erase_min fuel (node lb ll lr ls lh) >>= λ new_left. normalize fuel b new_left r

    pub erase_max : ℕ → Tree B → Outcome (Tree B)
    erase_max zero t = throw Error.no_fuel
    erase_max (suc fuel) null = throw Error.null_read
    erase_max (suc fuel) (node b l null s h) = ok l
    erase_max (suc fuel) (node b l (node rb rl rr rs rh) s h) =
        erase_max fuel (node rb rl rr rs rh) >>= λ new_right. normalize fuel b l new_right

    pub merge_left : ℕ → B → Tree B → Outcome (B × Tree B)
    merge_left zero b l = throw Error.no_fuel
    merge_left (suc fuel) b null = ok (b, null)
    merge_left (suc fuel) b (node lb ll lr ls lh) =
        find_max (node lb ll lr ls lh) >>= λ predecessor. elim (S.can_merge predecessor b) [
          | false ↦ ok (b, node lb ll lr ls lh)
          | true ↦ S.merged predecessor b >>= λ b'.
              erase_max fuel (node lb ll lr ls lh) >>= λ left. merge_left fuel b' left
        ]

    pub merge_right : ℕ → B → Tree B → Outcome (B × Tree B)
    merge_right zero b r = throw Error.no_fuel
    merge_right (suc fuel) b null = ok (b, null)
    merge_right (suc fuel) b (node rb rl rr rs rh) = find_min (node rb rl rr rs rh) >>= λ successor.
        elim (S.can_merge b successor) [
          | false ↦ ok (b, node rb rl rr rs rh)
          | true ↦ S.merged b successor >>= λ b'.
              erase_min fuel (node rb rl rr rs rh) >>= λ right. merge_right fuel b' right
        ]

    pub normalize : ℕ → B → Tree B → Tree B → Outcome (Tree B)
    normalize zero b l r = throw Error.no_fuel
    normalize (suc fuel) b l r = merge_left fuel b l >>= λ left.
        merge_right fuel left.0 r >>= λ right. join_node right.0 left.1 right.1

  -- With fuel for every entry of the subtrees: what the loops merge leaves a subtree.
  pub normalize_node : B → Tree B → Tree B → Outcome (Tree B)
  normalize_node b l r = normalize (3 * (size l + size r) + 2) b l r

  -- `BuildSplitNodes` over the blocks from the last to the first.
  pub build_split_nodes : List B → Tree B → Tree B → Outcome (Tree B)
  build_split_nodes [] l r = ok r
  build_split_nodes (b ∷ []) l r = normalize_node b l r
  build_split_nodes (b ∷ b' ∷ bs) l r =
      build_split_nodes (b' ∷ bs) null r >>= λ result. normalize_node b l result

  -- `InsertInNodeBlock` and `UpdateInNodeBlock`, at the block and the children of a node.
  pub insert_in_block : B → Tree B → Tree B → ℕ → K → V → Outcome (Tree B)
  insert_in_block b l r index q w = elim (not (S.full b) && S.can_insert b q w) [
    | true ↦ S.with_inserted b index q w >>= λ b'. rebuild b' l r
    | false ↦ S.split_inserted b index q w >>= λ bs. build_split_nodes bs l r
  ]

  pub update_in_block : B → Tree B → Tree B → ℕ → V → Outcome (Tree B)
  update_in_block b l r index w = elim (S.can_update b index w) [
    | true ↦ S.with_updated b index w >>= λ b'. rebuild b' l r
    | false ↦ S.split_updated b index w >>= λ bs. build_split_nodes bs l r
  ]

  -- `index < Count() && Equivalent(BlockKeyAt(block, index), key)`.
  pub holds_at : B → ℕ → K → Outcome Bool
  holds_at b index q = elim (ltb index (S.count b)) [
    | false ↦ ok false
    | true ↦ S.key_at b index >>= λ k. ok (not (c.less k q) && not (c.less q k))
  ]

  -- The two tests that every walk makes at a node.
  pub side : B → K → Outcome Side
  side b q = S.key_at b 0 >>= λ front. elim (c.less q front) [
    | true ↦ ok to_left
    | false ↦ S.key_at b (S.count b - 1) >>= λ back. elim (c.less back q) [
      | true ↦ ok to_right
      | false ↦ ok inside
    ]
  ]

  -- `Find`.
  pub find : Tree B → K → Outcome (Option V)
  find null q = ok none
  find (node b l r s h) q = side b q >>= λ at. elim at [
    | to_left ↦ find l q
    | to_right ↦ find r q
    | inside ↦ S.find_value b q
  ]

  pub contains : Tree B → K → Outcome Bool
  contains t q = find t q >>= λ found. ok (is_some found)

  -- `MakeNode(Block::FromSortedEntries({Entry{key, value}}), nullptr, nullptr)`.
  pub single_node : K → V → Outcome (Tree B)
  single_node q w = S.from_sorted_entries ((q, w) ∷ []) >>= λ b. make_node b null null

  -- `InsertNode`.
  pub insert_node : Tree B → K → V → Outcome (Option (Tree B))
  insert_node null q w = single_node q w >>= λ n. ok (some n)
  insert_node (node b l r s h) q w = side b q >>= λ at. elim at [
    | to_left ↦ elim (is_empty l) [
      | true ↦ insert_in_block b l r 0 q w >>= λ n. ok (some n)
      | false ↦ lift (λ new_left. normalize_node b new_left r) (insert_node l q w)
    ]
    | to_right ↦ elim (is_empty r) [
      | true ↦ insert_in_block b l r (S.count b) q w >>= λ n. ok (some n)
      | false ↦ lift (λ new_right. normalize_node b l new_right) (insert_node r q w)
    ]
    | inside ↦ holds_at b (S.lower_bound b q) q >>= λ present. elim present [
      | true ↦ ok none
      | false ↦ insert_in_block b l r (S.lower_bound b q) q w >>= λ n. ok (some n)
    ]
  ]

  -- `UpdateNode`.
  pub update_node : Tree B → K → V → Outcome (Option (Tree B))
  update_node null q w = ok none
  update_node (node b l r s h) q w = side b q >>= λ at. elim at [
    | to_left ↦ lift (λ new_left. rebuild b new_left r) (update_node l q w)
    | to_right ↦ lift (λ new_right. rebuild b l new_right) (update_node r q w)
    | inside ↦ holds_at b (S.lower_bound b q) q >>= λ present. elim present [
      | true ↦ update_in_block b l r (S.lower_bound b q) w >>= λ n. ok (some n)
      | false ↦ ok none
    ]
  ]

  -- The end of `EraseNode`, at the node whose block holds the key at `index`.
  pub erase_here : B → Tree B → Tree B → ℕ → Outcome (Tree B)
  erase_here b l r index = elim (ltb 1 (S.count b)) [
    | true ↦ S.with_erased b index >>= λ b'. normalize_node b' l r
    | false ↦ elim (is_empty l) [
      | true ↦ ok r
      | false ↦ elim (is_empty r) [
        | true ↦ ok l
        | false ↦ find_min r >>= λ successor.
            erase_min (3 * size r) r >>= λ new_right. normalize_node successor l new_right
      ]
    ]
  ]

  -- `EraseNode`.
  pub erase_node : Tree B → K → Outcome (Option (Tree B))
  erase_node null q = ok none
  erase_node (node b l r s h) q = side b q >>= λ at. elim at [
    | to_left ↦ lift (λ new_left. normalize_node b new_left r) (erase_node l q)
    | to_right ↦ lift (λ new_right. normalize_node b l new_right) (erase_node r q)
    | inside ↦ holds_at b (S.lower_bound b q) q >>= λ present. elim present [
      | true ↦ erase_here b l r (S.lower_bound b q) >>= λ n. ok (some n)
      | false ↦ ok none
    ]
  ]

  -- `SetNode`.
  pub set_node : Tree B → K → V → Outcome (Tree B)
  set_node null q w = single_node q w
  set_node (node b l r s h) q w = side b q >>= λ at. elim at [
    | to_left ↦ elim (is_empty l) [
      | true ↦ insert_in_block b l r 0 q w
      | false ↦ set_node l q w >>= λ new_left. normalize_node b new_left r
    ]
    | to_right ↦ elim (is_empty r) [
      | true ↦ insert_in_block b l r (S.count b) q w
      | false ↦ set_node r q w >>= λ new_right. normalize_node b l new_right
    ]
    | inside ↦ holds_at b (S.lower_bound b q) q >>= λ present. elim present [
      | true ↦ update_in_block b l r (S.lower_bound b q) w
      | false ↦ insert_in_block b l r (S.lower_bound b q) q w
    ]
  ]

  -- `ToVector`: `AppendInOrder` pushes to the back of `result`.
  pub append_in_order : Tree B → List (K × V) → List (K × V)
  append_in_order null result = result
  append_in_order (node b l r s h) result =
      append_in_order r (S.append_to b (append_in_order l result))

  pub to_vector : Tree B → List (K × V)
  to_vector t = append_in_order t []

  -- `ForEachInBlock`: the first number is the entries that are left, the second the index.
  pub for_each_in_block {μ} : {A : Type μ} → (A → K → V → A) → B → ℕ → ℕ → A → Outcome A
  for_each_in_block f b zero i st = ok st
  for_each_in_block f b (suc rest) i st =
      S.key_at b i >>= λ k. S.value_at b i >>= λ v. for_each_in_block f b rest (i + 1) (f st k v)

  -- `ForEach`: the callback carries a state of its own.
  pub for_each {μ} : {A : Type μ} → (A → K → V → A) → Tree B → A → Outcome A
  for_each f null st = ok st
  for_each f (node b l r s h) st =
      for_each f l st >>= λ s1. for_each_in_block f b (S.count b) 0 s1 >>= λ s2. for_each f r s2

  -- `ForEachInBlockUntil` and `ForEachUntil`.
  pub for_each_in_block_until {μ} :
      {A : Type μ} → (A → K → V → A × Bool) → B → ℕ → ℕ → A → Outcome (A × Bool)
  for_each_in_block_until f b zero i st = ok (st, true)
  for_each_in_block_until f b (suc rest) i st = S.key_at b i >>= λ k. S.value_at b i >>= λ v.
      elim (f st k v).1 [
        | false ↦ ok ((f st k v).0, false)
        | true ↦ for_each_in_block_until f b rest (i + 1) (f st k v).0
      ]

  pub for_each_until {μ} : {A : Type μ} → (A → K → V → A × Bool) → Tree B → A → Outcome (A × Bool)
  for_each_until f null st = ok (st, true)
  for_each_until f (node b l r s h) st = for_each_until f l st >>= λ a. elim a.1 [
    | false ↦ ok (a.0, false)
    | true ↦ for_each_in_block_until f b (S.count b) 0 a.0 >>= λ m. elim m.1 [
      | false ↦ ok (m.0, false)
      | true ↦ for_each_until f r m.0
    ]
  ]

  -- `BuildBalancedFromBlocks` over the blocks from `first` up to `last`. The fuel bounds the depth of
  -- the recursion.
  pub build_balanced : ℕ → List B → ℕ → ℕ → Outcome (Tree B)
  build_balanced zero bs first last = throw Error.no_fuel
  build_balanced (suc fuel) bs first last = elim (first == last) [
    | true ↦ ok null
    | false ↦
        let middle = first + (last - first) / 2 in
        build_balanced fuel bs first middle >>= λ left.
        build_balanced fuel bs (middle + 1) last >>= λ right. elim (get_elem? bs middle) [
          | none ↦ throw Error.out_of_range
          | some b ↦ make_node b left right
        ]
  ]

  -- `ValidateSortedUniqueEntries`: each entry after the first against the one before it.
  pub validate_sorted_unique : List (K × V) → Outcome (Unit {0})
  validate_sorted_unique [] = ok tt
  validate_sorted_unique (previous ∷ []) = ok tt
  validate_sorted_unique (previous ∷ current ∷ es) = elim (c.less previous.0 current.0) [
    | false ↦ throw Error.not_sorted
    | true ↦ validate_sorted_unique (current ∷ es)
  ]

  -- `FromSortedUniqueEntries`. The depth of the recursion is at most the number of blocks, plus one.
  pub from_sorted_unique : List (K × V) → Outcome (Tree B)
  from_sorted_unique es = validate_sorted_unique es >>= λ _.
      S.pack_blocks es >>= λ bs. build_balanced (length bs + 1) bs 0 (length bs)
