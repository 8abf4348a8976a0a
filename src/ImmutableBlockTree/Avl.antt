-- ===== src/ImmutableBlockTree/Avl.antt =====
-- The shape of a tree of blocks that the operations keep, and the order of its entries.
use cpp_util.Util.{
  ◌+◌, ◌≤◌, max, ◌≡◌, refl, List, [], ◌++◌, length, length-append, arith, append-nil, append_assoc,
  sym,
}
use cpp_util.Container.Balanced.{doubled, doubled_siblings, height_of_size}
use cpp_util.Container.Comparator.{Comparator}
use cpp_util.Container.Blocks.{Blocks}
use cpp_util.Container.Store.{u32_max}
use cpp_util.ImmutableBlockTree.{Tree, null, node, height, size, append_in_order, to_vector}

module _ {ℓ} {K V : Type ℓ} ⦃c : Comparator K⦄ (S : Blocks K V) where
  open S use {B}

  -- Cached sizes and heights are right, sizes fit `uint32_t`, heights of siblings differ by one at
  -- most, and each block is one that a tree may hold.
  abbrev pub IsAvl : Tree B → Type 0
  IsAvl null = Unit
  IsAvl (node b l r s h) =
      IsAvl l
      × IsAvl r
      × (s ≡ S.count b + size l + size r)
      × (h ≡ 1 + max (height l) (height r))
      × (height l ≤ height r + 1)
      × (height r ≤ height l + 1)
      × (s ≤ u32_max)
      × S.IsBlock b

  -- The entries in order.
  abbrev pub entries : Tree B → List (K × V)
  entries null = []
  entries (node b l r s h) = entries l ++ (S.view b ++ entries r)

  append_in_order-entries :
      (t : Tree B) (out : List (K × V)) → append_in_order S t out ≡ out ++ entries t
  unfolding append_in_order
  append_in_order-entries null out = sym (append-nil out)
  append_in_order-entries (node b l r s h) out =
      simp (append_in_order-entries l, append_in_order-entries r, S.append_to_view, append_assoc)

  pub to_vector-entries : (t : Tree B) → to_vector S t ≡ entries t
  unfolding to_vector
  to_vector-entries t = append_in_order-entries t []

  pub length-entries : (t : Tree B) → IsAvl t → length (entries t) ≡ size t
  length-entries null a = refl
  length-entries (node b l r s h) a = omega (
    arith,
    length-append (entries l) (S.view b ++ entries r),
    length-append (S.view b) (entries r),
    S.count_view b,
    length-entries l a.0,
    length-entries r a.1,
  )

  doubled-le-size : (t : Tree B) → IsAvl t → doubled (height t) ≤ size t + 1
  doubled-le-size null a = unfold doubled in omega arith
  doubled-le-size (node b l r s h) a =
      let (al, ar, es, eh, dl, dr, fits, block) = a in
      rw (eh, es)
        (omega (
          arith,
          S.count_pos b block,
          doubled_siblings (height l) (height r) dl dr,
          doubled-le-size l al,
          doubled-le-size r ar,
        ))

  pub size-le : (t : Tree B) → IsAvl t → size t ≤ u32_max
  size-le null a = omega arith
  size-le (node b l r s h) a = a.6

  pub height_bound : (t : Tree B) → IsAvl t → height t ≤ 65
  height_bound t a = height_of_size (height t) (size t) (doubled-le-size t a) (size-le t a)
