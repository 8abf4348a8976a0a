-- ===== src/ImmutableTree.antt =====
-- immutable_container/include/immutable_container/immutable_tree.h: the persistent AVL tree. Nodes are
-- never changed once made, so a node is a value and a shared pointer to one is the node itself.
pub mod Avl
pub mod Bounds
pub mod Build
pub mod Refine
pub mod AsStore
mod Examples
pub mod Rotate
pub mod Balance
pub mod Change
pub mod Insert
pub mod Update
pub mod Read
pub mod Erase
use cpp_util.Util.{
  ℕ, zero, suc, ◌+◌, ◌-◌, ◌/◌, ◌%◌, ◌^◌, max, Bool, true, false, ◌||◌, Option, none, some, List, [],
  ◌∷◌, ◌++◌, ltb, if◌then◌else◌, ◌==◌, get_elem?, length, is_some,
}
use cpp_util.Util.Int.{ℤ, pos, negsuc, sub_ℕ, ltb_ℤ}
use cpp_util.Container.Comparator.{Comparator}
pub use cpp_util.Container.Store.{u32_max}
use cpp_util.Container.Outcome.{Outcome, ok, throw, Error, ◌>>=◌}

-- `NodePtr`: the null pointer, or a node with the fields of `Node` in their order.
pub data Tree {ℓ κ} (K : Type ℓ) (V : Type κ) : Type (ℓ ⊔ κ) where
  null : Tree K V
  node : K → V → Tree K V → Tree K V → ℕ → ℕ → Tree K V

abbrev pub u16_max : ℕ
u16_max = 65535

module _ {ℓ κ} {K : Type ℓ} {V : Type κ} where
  abbrev pub height : Tree K V → ℕ
  height null = 0
  height (node k v l r s h) = h

  abbrev pub size : Tree K V → ℕ
  size null = 0
  size (node k v l r s h) = s

  -- `Empty`.
  unfoldable pub is_empty : Tree K V → Bool
  is_empty null = true
  is_empty (node k v l r s h) = false

  -- `MakeNode`. The two casts keep their wrap-around.
  pub make_node : K → V → Tree K V → Tree K V → Outcome (Tree K V)
  make_node k v l r =
      let h = 1 + max (height l) (height r) in
      if ltb u16_max h
      then throw Error.height_exceeds
      else if ltb (u32_max - 1) (size l) || ltb (u32_max - 1 - size l) (size r)
      then throw Error.size_exceeds
      else ok (node k v l r ((1 + size l + size r) % 2 ^ 32) (h % 2 ^ 16))

  -- `BalanceFactor`, an `int`.
  pub balance_factor : Tree K V → ℤ
  balance_factor null = pos 0
  balance_factor (node k v l r s h) = sub_ℕ (height l) (height r)

  -- `RotateLeft` reads `node->right->left`.
  pub rotate_left : Tree K V → Outcome (Tree K V)
  rotate_left null = throw Error.null_read
  rotate_left (node k v l null s h) = throw Error.null_read
  rotate_left (node k v l (node pk pv moved pr ps ph) s h) =
      make_node k v l moved >>= λ new_left. make_node pk pv new_left pr

  pub rotate_right : Tree K V → Outcome (Tree K V)
  rotate_right null = throw Error.null_read
  rotate_right (node k v null r s h) = throw Error.null_read
  rotate_right (node k v (node pk pv pl moved ps ph) r s h) =
      make_node k v moved r >>= λ new_right. make_node pk pv pl new_right

  -- `Balance`.
  pub balance : Tree K V → Outcome (Tree K V)
  balance null = ok null
  balance (node k v l r s h) =
      let factor = balance_factor (node k v l r s h) in
      if ltb_ℤ (pos 1) factor
      then (if ltb_ℤ (balance_factor l) (pos 0)
          then rotate_left l >>= (λ new_left. make_node k v new_left r >>= rotate_right)
          else rotate_right (node k v l r s h))
      else if ltb_ℤ factor (negsuc 0)
      then (if ltb_ℤ (pos 0) (balance_factor r)
          then rotate_right r >>= (λ new_right. make_node k v l new_right >>= rotate_left)
          else rotate_left (node k v l r s h))
      else ok (node k v l r s h)

  -- `Balance(MakeNode(key, value, left, right))`.
  pub rebuild : K → V → Tree K V → Tree K V → Outcome (Tree K V)
  rebuild k v l r = make_node k v l r >>= balance

  -- `ToVector`: `AppendInOrder` pushes to the back of `result`.
  unfoldable pub append_in_order : Tree K V → List (K × V) → List (K × V)
  append_in_order null result = result
  append_in_order (node k v l r s h) result =
      append_in_order r (append_in_order l result ++ (k, v) ∷ [])

  unfoldable pub to_vector : Tree K V → List (K × V)
  to_vector t = append_in_order t []

  -- `ForEach` and `ForEachUntil`: the callback carries a state of its own.
  pub for_each {μ} : {S : Type μ} → (S → K → V → S) → Tree K V → S → S
  for_each f null st = st
  for_each f (node k v l r s h) st = for_each f r (f (for_each f l st) k v)

  pub for_each_until {μ} : {S : Type μ} → (S → K → V → S × Bool) → Tree K V → S → S × Bool
  for_each_until f null st = (st, true)
  for_each_until f (node k v l r s h) st =
      let (s1, left_done) = for_each_until f l st in
      elim left_done [
        | false ↦ (s1, false)
        | true ↦
            let (s2, more) = f s1 k v in
            elim more [ false ↦ (s2, false) | true ↦ for_each_until f r s2 ]
      ]

  -- `FindMin`; `EraseMin` reads `node->left`.
  pub find_min : Tree K V → Option (K × V)
  find_min null = none
  find_min (node k v null r s h) = some (k, v)
  find_min (node k v (node lk lv ll lr ls lh) r s h) = find_min (node lk lv ll lr ls lh)

  pub erase_min : Tree K V → Outcome (Tree K V)
  erase_min null = throw Error.null_read
  erase_min (node k v null r s h) = ok r
  erase_min (node k v (node lk lv ll lr ls lh) r s h) =
      erase_min (node lk lv ll lr ls lh) >>= λ new_left. rebuild k v new_left r

  -- The end of `EraseNode`, at the node of the key.
  pub erase_here : Tree K V → Tree K V → Outcome (Option (Tree K V))
  erase_here null r = ok (some r)
  erase_here (node lk lv ll lr ls lh) null = ok (some (node lk lv ll lr ls lh))
  erase_here (node lk lv ll lr ls lh) (node rk rv rl rr rs rh) =
      elim (find_min (node rk rv rl rr rs rh)) [
        | none ↦ throw Error.null_read
        | some successor ↦ erase_min (node rk rv rl rr rs rh) >>= λ new_right.
            rebuild successor.0 successor.1 (node lk lv ll lr ls lh) new_right >>= λ n. ok (some n)
      ]

module _ {ℓ κ} {K : Type ℓ} {V : Type κ} where
  -- `BuildBalancedFromSorted` over the entries from `first` up to `last`. The fuel bounds the depth of
  -- the recursion.
  pub build_balanced : ℕ → List (K × V) → ℕ → ℕ → Outcome (Tree K V)
  build_balanced zero es first last = throw Error.no_fuel
  build_balanced (suc fuel) es first last = elim (first == last) [
    | true ↦ ok null
    | false ↦
        let middle = first + (last - first) / 2 in
        build_balanced fuel es first middle >>= λ left.
        build_balanced fuel es (middle + 1) last >>= λ right. elim (get_elem? es middle) [
          | none ↦ throw Error.out_of_range
          | some e ↦ make_node e.0 e.1 left right
        ]
  ]

-- What `*new_left` is rebuilt into, where a call below may have refused.
abbrev pub lift {ℓ} : {A : Type ℓ} → (A → Outcome A) → Outcome (Option A) → Outcome (Option A)
lift f m = m >>= λ o. elim o [ none ↦ ok none | some a ↦ f a >>= λ b. ok (some b) ]

module _ {ℓ κ} {K : Type ℓ} {V : Type κ} ⦃c : Comparator K⦄ where
  -- `Find`.
  unfoldable pub find : Tree K V → K → Option V
  find null q = none
  find (node k v l r s h) q = elim (c.less q k) [
    | true ↦ find l q
    | false ↦ elim (c.less k q) [ true ↦ find r q | false ↦ some v ]
  ]

  unfoldable pub contains : Tree K V → K → Bool
  contains t q = is_some (find t q)

  -- `InsertNode`.
  pub insert_node : Tree K V → K → V → Outcome (Option (Tree K V))
  insert_node null q w = make_node q w null null >>= λ n. ok (some n)
  insert_node (node k v l r s h) q w = elim (c.less q k) [
    | true ↦ lift (λ new_left. rebuild k v new_left r) (insert_node l q w)
    | false ↦ elim (c.less k q) [
      | true ↦ lift (λ new_right. rebuild k v l new_right) (insert_node r q w)
      | false ↦ ok none
    ]
  ]

  -- `UpdateNode`.
  pub update_node : Tree K V → K → V → Outcome (Option (Tree K V))
  update_node null q w = ok none
  update_node (node k v l r s h) q w = elim (c.less q k) [
    | true ↦ lift (λ new_left. rebuild k v new_left r) (update_node l q w)
    | false ↦ elim (c.less k q) [
      | true ↦ lift (λ new_right. rebuild k v l new_right) (update_node r q w)
      | false ↦ rebuild k w l r >>= λ n. ok (some n)
    ]
  ]

  -- `SetNode`.
  pub set_node : Tree K V → K → V → Outcome (Tree K V)
  set_node null q w = make_node q w null null
  set_node (node k v l r s h) q w = elim (c.less q k) [
    | true ↦ set_node l q w >>= λ new_left. rebuild k v new_left r
    | false ↦ elim (c.less k q) [
      | true ↦ set_node r q w >>= λ new_right. rebuild k v l new_right
      | false ↦ rebuild k w l r
    ]
  ]

  -- `EraseNode`.
  pub erase_node : Tree K V → K → Outcome (Option (Tree K V))
  erase_node null q = ok none
  erase_node (node k v l r s h) q = elim (c.less q k) [
    | true ↦ lift (λ new_left. rebuild k v new_left r) (erase_node l q)
    | false ↦ elim (c.less k q) [
      | true ↦ lift (λ new_right. rebuild k v l new_right) (erase_node r q)
      | false ↦ erase_here l r
    ]
  ]

  -- `ValidateSortedUniqueEntries`: each entry after the first against the one before it.
  pub validate_sorted_unique : List (K × V) → Outcome (Unit {0})
  validate_sorted_unique [] = ok tt
  validate_sorted_unique (previous ∷ []) = ok tt
  validate_sorted_unique (previous ∷ current ∷ es) = elim (c.less previous.0 current.0) [
    | false ↦ throw Error.not_sorted
    | true ↦ validate_sorted_unique (current ∷ es)
  ]

  -- `FromSortedUniqueEntries`. The depth of the recursion is at most the number of entries, plus one.
  pub from_sorted_unique : List (K × V) → Outcome (Tree K V)
  from_sorted_unique es =
      validate_sorted_unique es >>= λ _. build_balanced (length es + 1) es 0 (length es)
