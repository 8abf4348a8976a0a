-- ===== src/ImmutableTree/Change.antt =====
-- A change at one key: the tree that a call returns against the tree that it was given. The entries
-- below and above the key stay, and what stands at the key is replaced.
use cpp_util.Util.{
  ℕ, ◌+◌, ◌≤◌, ◌≡◌, refl, List, [], ◌∷◌, ◌++◌, Option, none, some, length, arith, append_assoc, ap,
}
use cpp_util.Container.Comparator.{Comparator, ◌≺◌, Equiv, less_asymm}
use cpp_util.Container.Outcome.{Outcome, ok}
use cpp_util.Container.Assoc.{IsSorted, cut, Cut}
use cpp_util.Container.Assoc.Sorted.{All-Before, All-Before_le, IsSorted-left, IsSorted-right}
use cpp_util.Container.Assoc.Cutting.{cut-left, cut-past, cut-at, cut-nil}
use cpp_util.ImmutableTree.{Tree, null, node, u32_max, height, size, rebuild, lift}
use cpp_util.ImmutableTree.Avl.{IsAvl, entries}
use cpp_util.ImmutableTree.Rotate.{joined}
use cpp_util.ImmutableTree.Balance.{rebuild_lem}

-- 1 where the key was found, and 0 where not.
abbrev pub found {ℓ} : {A : Type ℓ} → Option A → ℕ
found none = 0
found (some e) = 1

module _ {ℓ κ} {K : Type ℓ} {V : Type κ} ⦃c : Comparator K⦄ where
  -- The list with `mid` at the key of the cut.
  abbrev pub filled : Cut (K × V) → List (K × V) → List (K × V)
  filled p mid = p.below ++ (mid ++ p.above)

  pub record IsChange (q : K) (t : Tree K V) (mid : List (K × V)) (t' : Tree K V)
      : Type (ℓ ⊔ κ) where
    pub avl : IsAvl t'
    pub content : entries t' ≡ filled (cut q (entries t)) mid
    pub counted : size t' + found (cut q (entries t)).here ≡ size t + length mid
    pub higher : height t' ≤ height t + 1
    pub lower : height t ≤ height t' + 1

  -- The result fits the count of a node.
  abbrev pub Fits : K → Tree K V → List (K × V) → Type 0
  Fits q t mid = size t + length mid ≤ u32_max + found (cut q (entries t)).here

  module _ (q k : K) (v : V) (l r : Tree K V) (s h : ℕ) (avl : IsAvl (node k v l r s h))
      (sorted : IsSorted (entries (node k v l r s h))) where
    pub IsSorted-l : IsSorted (entries l)
    IsSorted-l = IsSorted-left (entries l) ((k, v) ∷ entries r) sorted

    pub IsSorted-r : IsSorted (entries r)
    IsSorted-r = (IsSorted-right (entries l) ((k, v) ∷ entries r) sorted).1

    -- The cut of a node, on the left of its key, on the right and at it.
    cut_l :
        q ≺ k
        → cut q (entries (node k v l r s h)) ≡ record {
          below = (cut q (entries l)).below;
          here = (cut q (entries l)).here;
          above = (cut q (entries l)).above ++ (k, v) ∷ entries r;
        }
    cut_l p = cut-left q (entries l) (k, v) (entries r) p

    pub here_l : q ≺ k → (cut q (entries (node k v l r s h))).here ≡ (cut q (entries l)).here
    here_l p = ap (λ (x : Cut (K × V)). x.here) (cut_l p)

    cut_r :
        k ≺ q
        → cut q (entries (node k v l r s h)) ≡ record {
          below = entries l ++ (k, v) ∷ (cut q (entries r)).below;
          here = (cut q (entries r)).here;
          above = (cut q (entries r)).above;
        }
    cut_r p =
        cut-past q (entries l) (k, v) (entries r)
          (All-Before_le k q (less_asymm k q p) (entries l)
            (All-Before (entries l) (entries r) (k, v) sorted))
          p

    pub here_r : k ≺ q → (cut q (entries (node k v l r s h))).here ≡ (cut q (entries r)).here
    here_r p = ap (λ (x : Cut (K × V)). x.here) (cut_r p)

    pub cut_here :
        Equiv q k
        → cut q (entries (node k v l r s h))
          ≡ record { below = entries l; here = some (k, v); above = entries r }
    cut_here e =
        cut-at q (entries l) (k, v) (entries r)
          (All-Before_le k q e.0 (entries l) (All-Before (entries l) (entries r) (k, v) sorted)) e

    -- A changed subtree is rebuilt into a changed node.
    module _ (mid : List (K × V)) where
      pub Fits-l : q ≺ k → Fits q (node k v l r s h) mid → Fits q l mid
      Fits-l p fits = omega (arith, ap (λ (x : Cut (K × V)). found x.here) (cut_l p), avl)

      pub rebuild_l :
          (l' : Tree K V)
          → q ≺ k
          → Fits q (node k v l r s h) mid
          → IsChange q l mid l'
          → (t' : Tree K V) × (rebuild k v l' r ≡ ok t') × IsChange q (node k v l r s h) mid t'
      rebuild_l l' p fits ch =
          let same = ap (λ (x : Cut (K × V)). found x.here) (cut_l p) in
          let (t', e, a, es, count, up, low, even) =
            rebuild_lem k v l' r ch.avl avl.1 (omega arith) (omega arith) (omega arith) in
          (
            t',
            e,
            record {
              avl = a;
              content = rw (cut_l p, es, ch.content) (simp append_assoc);
              counted = omega arith;
              higher = omega arith;
              lower = omega arith;
            },
          )

      pub Fits-r : k ≺ q → Fits q (node k v l r s h) mid → Fits q r mid
      Fits-r p fits = omega (arith, ap (λ (x : Cut (K × V)). found x.here) (cut_r p), avl)

      pub rebuild_r :
          (r' : Tree K V)
          → k ≺ q
          → Fits q (node k v l r s h) mid
          → IsChange q r mid r'
          → (t' : Tree K V) × (rebuild k v l r' ≡ ok t') × IsChange q (node k v l r s h) mid t'
      rebuild_r r' p fits ch =
          let same = ap (λ (x : Cut (K × V)). found x.here) (cut_r p) in
          let (t', e, a, es, count, up, low, even) =
            rebuild_lem k v l r' avl.0 ch.avl (omega arith) (omega arith) (omega arith) in
          (
            t',
            e,
            record {
              avl = a;
              content = rw (cut_r p, es, ch.content) (simp append_assoc);
              counted = omega arith;
              higher = omega arith;
              lower = omega arith;
            },
          )

  -- The call returns a tree that is the given one changed at the key.
  abbrev pub Changes : K → Tree K V → List (K × V) → Outcome (Option (Tree K V)) → Type (ℓ ⊔ κ)
  Changes q t mid m = (t' : Tree K V) × (m ≡ ok (some t')) × IsChange q t mid t'

  module _ (q k : K) (v : V) (l r : Tree K V) (s h : ℕ) (avl : IsAvl (node k v l r s h))
      (sorted : IsSorted (entries (node k v l r s h))) (mid : List (K × V))
      (fits : Fits q (node k v l r s h) mid) (m : Outcome (Option (Tree K V))) where
    pub Changes-l :
        q ≺ k
        → Changes q l mid m
        → Changes q (node k v l r s h) mid (lift (λ new_left. rebuild k v new_left r) m)
    Changes-l p (l', e, ch) =
        let (t', e', ch') = rebuild_l q k v l r s h avl sorted mid l' p fits ch in
        (t', rw (e, e') refl, ch')

    pub Changes-r :
        k ≺ q
        → Changes q r mid m
        → Changes q (node k v l r s h) mid (lift (λ new_right. rebuild k v l new_right) m)
    Changes-r p (r', e, ch) =
        let (t', e', ch') = rebuild_r q k v l r s h avl sorted mid r' p fits ch in
        (t', rw (e, e') refl, ch')

  -- A new node in the place of a null pointer.
  pub made-IsChange : (q : K) (w : V) → IsChange q null ((q, w) ∷ []) (joined q w null null)
  made-IsChange q w = record {
    avl = omega arith;
    content = rw cut-nil refl;
    counted = rw cut-nil refl;
    higher = omega arith;
    lower = omega arith;
  }

  -- The node of the key, rebuilt over the same subtrees.
  pub rebuild_here :
      (q k : K) (v : V) (l r : Tree K V) (s h : ℕ)
      → IsAvl (node k v l r s h)
      → IsSorted (entries (node k v l r s h))
      → (k' : K) (w : V) → Equiv q k
      → (t' : Tree K V) × (rebuild k' w l r ≡ ok t')
        × IsChange q (node k v l r s h) ((k', w) ∷ []) t'
  rebuild_here q k v l r s h avl sorted k' w e =
      let at_key = cut_here q k v l r s h avl sorted e in
      let same = ap (λ (x : Cut (K × V)). found x.here) at_key in
      let (t', made, a, es, count, up, low, even) =
        rebuild_lem k' w l r avl.0 avl.1 (omega arith) (omega arith) (omega arith) in
      (
        t',
        made,
        record {
          avl = a;
          content = rw at_key es;
          counted = omega arith;
          higher = omega arith;
          lower = omega arith;
        },
      )
