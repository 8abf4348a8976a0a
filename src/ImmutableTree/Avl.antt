-- ===== src/ImmutableTree/Avl.antt =====
-- The shape of a tree that the operations keep, and the order of its entries.
use cpp_util.Util.{
  ◌+◌, ◌≤◌, max, ◌≡◌, refl, List, [], ◌∷◌, ◌++◌, length, length-append, arith, append-nil,
  append_assoc, sym,
}
use cpp_util.Container.Balanced.{doubled, doubled_siblings, height_of_size}
use cpp_util.ImmutableTree.{Tree, null, node, u32_max, height, size, append_in_order, to_vector}

module _ {ℓ κ} {K : Type ℓ} {V : Type κ} where
  -- Cached sizes and heights are right, sizes fit `uint32_t`, and heights of siblings differ by one
  -- at most.
  abbrev pub IsAvl : Tree K V → Type 0
  IsAvl null = Unit
  IsAvl (node k v l r s h) =
      IsAvl l
      × IsAvl r
      × (s ≡ 1 + size l + size r)
      × (h ≡ 1 + max (height l) (height r))
      × (height l ≤ height r + 1)
      × (height r ≤ height l + 1)
      × (s ≤ u32_max)

  -- The entries in order.
  abbrev pub entries : Tree K V → List (K × V)
  entries null = []
  entries (node k v l r s h) = entries l ++ (k, v) ∷ entries r

  append_in_order-entries :
      (t : Tree K V) (out : List (K × V)) → append_in_order t out ≡ out ++ entries t
  unfolding append_in_order
  append_in_order-entries null out = sym (append-nil out)
  append_in_order-entries (node k v l r s h) out =
      simp (append_in_order-entries l, append_in_order-entries r, append_assoc)

  pub to_vector-entries : (t : Tree K V) → to_vector t ≡ entries t
  unfolding to_vector
  to_vector-entries t = append_in_order-entries t []

  pub length-entries : (t : Tree K V) → IsAvl t → length (entries t) ≡ size t
  length-entries null a = refl
  length-entries (node k v l r s h) a = omega (
    arith,
    length-append (entries l) ((k, v) ∷ entries r),
    length-entries l a.0,
    length-entries r a.1,
  )

module _ {ℓ κ} {K : Type ℓ} {V : Type κ} where
  doubled-le-size : (t : Tree K V) → IsAvl t → doubled (height t) ≤ size t + 1
  doubled-le-size null a = unfold doubled in omega arith
  doubled-le-size (node k v l r s h) a =
      let (al, ar, es, eh, dl, dr, fits) = a in
      rw (eh, es)
        (omega (
          arith,
          doubled_siblings (height l) (height r) dl dr,
          doubled-le-size l al,
          doubled-le-size r ar,
        ))

  pub size-le : (t : Tree K V) → IsAvl t → size t ≤ u32_max
  size-le null a = omega arith
  size-le (node k v l r s h) a = a.6

  -- The height that the sizes leave room for.
  pub height_bound : (t : Tree K V) → IsAvl t → height t ≤ 65
  height_bound t a = height_of_size (height t) (size t) (doubled-le-size t a) (size-le t a)
