-- ===== src/ImmutableBlockTree/Refine.antt =====
-- The public operations of the block tree against the abstract view: a tree stands for the sorted list
-- of its entries.
use cpp_util.Util.{
  ℕ, ◌+◌, ◌≤◌, ◌<◌, ◌≡◌, refl, true, Option, none, some, List, [], arith, inl, inr, Option-cases,
  ◌∙◌, ap, sym, subst, length,
}
use mathlib.Core.Option.{some-injective}
use cpp_util.Container.Comparator.{Comparator}
use cpp_util.Container.Blocks.{Blocks}
use cpp_util.Container.Store.{u32_max, Refines, refused, returned, Gives}
use cpp_util.Container.Outcome.{Outcome}
use cpp_util.Container.Assoc
use cpp_util.Container.Assoc.{IsSorted, cut}
use cpp_util.Container.Assoc.Cutting.{entry}
use cpp_util.Container.Assoc.Laws.{find-cut, value}
use cpp_util.Container.Assoc.Edit.{
  Fits, edit, edit-inverse, edit-length, edit-IsSorted, put_entry, put_value, put_either,
  put_nothing, put_entry-IsLocal, put_value-IsLocal, put_either-IsLocal, put_nothing-IsLocal,
  insert-edit, update-edit, set-edit, erase-edit,
}
use cpp_util.ImmutableBlockTree.{Tree, size, insert_node, update_node, erase_node, set_node}
use cpp_util.ImmutableBlockTree.Avl.{IsAvl, entries, length-entries, size-le}
use cpp_util.ImmutableBlockTree.Insert.{insert_node-Edits}
use cpp_util.ImmutableBlockTree.Change.{update_node-Updates}
use cpp_util.ImmutableBlockTree.Erase.{erase_node-Edits}
use cpp_util.ImmutableBlockTree.Set.{set_node-Sets}

module _ {ℓ} {K V : Type ℓ} ⦃c : Comparator K⦄ where
  -- An edit that puts `n` entries more than there were, at most.
  Fits-edit :
      (f : Option (K × V) → Option (List (K × V))) (q : K) (es : List (K × V)) (n : ℕ)
      → ((mid : List (K × V))
          → f (cut q es).here ≡ some mid
          → length mid ≤ n + length (entry (cut q es).here []))
      → n + length es ≤ u32_max
      → Fits (edit f q es)
  Fits-edit f q es n few fits zs e =
      let (mid, puts, whole) = edit-inverse f q es zs e in
      omega (arith, edit-length f q es mid zs puts e, few mid puts)

  put_entry_few :
      (q : K) (w : V) (o : Option (K × V)) (mid : List (K × V))
      → put_entry q w o ≡ some mid
      → length mid ≤ 1 + length (entry o [])
  put_entry_few q w none mid e = omega (arith, ap length (some-injective _ _ e))
  put_entry_few q w (some x) mid e = cc e

  put_value_few :
      (w : V) (o : Option (K × V)) (mid : List (K × V))
      → put_value w o ≡ some mid
      → length mid ≤ 0 + length (entry o [])
  put_value_few w none mid e = cc e
  put_value_few w (some x) mid e = omega (arith, ap length (some-injective _ _ e))

  put_nothing_few :
      (o : Option (K × V)) (mid : List (K × V))
      → put_nothing o ≡ some mid
      → length mid ≤ 0 + length (entry o [])
  put_nothing_few none mid e = cc e
  put_nothing_few (some x) mid e = omega (arith, ap length (some-injective _ _ e))

  put_either_few :
      (q : K) (w : V) (o : Option (K × V)) (mid : List (K × V))
      → put_either q w o ≡ some mid
      → length mid ≤ 1 + length (entry o [])
  put_either_few q w none mid e = omega (arith, ap length (some-injective _ _ e))
  put_either_few q w (some x) mid e = omega (arith, ap length (some-injective _ _ e))

  put_either_held :
      (q : K) (w : V) (o : Option (K × V)) (x : K × V) (mid : List (K × V))
      → o ≡ some x
      → put_either q w o ≡ some mid
      → length mid ≤ 0 + length (entry o [])
  put_either_held q w none x mid h e = cc h
  put_either_held q w (some y) x mid h e = omega (arith, ap length (some-injective _ _ e))

module _ {ℓ} {K V : Type ℓ} ⦃c : Comparator K⦄ (S : Blocks K V) where
  open S use {B}

  -- Balanced, with right cached fields, of blocks that are not empty, and sorted by the comparator.
  pub record IsValid (t : Tree B) : Type ℓ where
    pub avl : IsAvl S t
    pub sorted : IsSorted (entries S t)

  with_order :
      {P : Tree B → Type 0} {m : Outcome (Option (Tree B))} {o : Option (List (K × V))}
      → ((t : Tree B) → P t → IsAvl S t)
      → ((zs : List (K × V)) → o ≡ some zs → IsSorted zs)
      → Refines P (entries S) m o
      → Refines IsValid (entries S) m o
  with_order shape order refused = refused
  with_order shape order (returned {t = t} {es = es} p same) =
      returned (record { avl = shape t p; sorted = subst IsSorted (sym same) (order es refl) }) same

  -- Over any blocks that keep the laws of the interface, on a valid tree of fewer than 2 ^ 32 - 1
  -- entries `Insert` returns, whether blocks split, merge or neither; it refuses exactly where
  -- the insertion into the sorted list of entries does (the key is there), and else the new tree
  -- is valid (balanced, sorted, no block empty) and its entries are that list.
  pub insert_node-Refines_blocks :
      (t : Tree B) (q : K) (w : V)
      → IsValid t
      → size t < u32_max
      → Refines IsValid (entries S) (insert_node S t q w) (Assoc.insert q w (entries S t))
  insert_node-Refines_blocks t q w valid room = rw (insert-edit q w (entries S t)) (
      with_order (λ t' a. a)
        (λ zs.
          edit-IsSorted (put_entry q w) q (entries S t) zs (put_entry-IsLocal q w) valid.sorted)
        (insert_node-Edits S q w t valid.avl valid.sorted (
          Fits-edit (put_entry q w) q (entries S t) 1 (put_entry_few q w _)
            (omega (arith, length-entries S t valid.avl)))))

  -- Over blocks that keep the laws of the interface and in which an update of an entry always
  -- fits, on a valid tree `Update` returns; it refuses exactly where the key is not there, and
  -- else the new tree is valid and its entries are the list with that value replaced.
  pub update_node-Refines_blocks :
      (t : Tree B) (q : K) (w : V)
      → IsValid t
      → ((b : B) (i : ℕ) → i < S.count b → S.can_update b i w ≡ true)
      → Refines IsValid (entries S) (update_node S t q w) (Assoc.update q w (entries S t))
  update_node-Refines_blocks t q w valid keeps = rw (update-edit q w (entries S t)) (
      with_order (λ t' a. a.0)
        (λ zs. edit-IsSorted (put_value w) q (entries S t) zs (put_value-IsLocal q w) valid.sorted)
        (update_node-Updates S q w keeps t valid.avl valid.sorted (
          Fits-edit (put_value w) q (entries S t) 0 (put_value_few w _)
            (omega (arith, length-entries S t valid.avl, size-le S t valid.avl)))))

  -- Over any blocks that keep the laws of the interface, on a valid tree `Erase` returns; it
  -- refuses exactly where the removal from the sorted list of entries does (the key is not
  -- there), and else the new tree is valid and its entries are that list.
  pub erase_node-Refines_blocks :
      (t : Tree B) (q : K)
      → IsValid t
      → Refines IsValid (entries S) (erase_node S t q) (Assoc.erase q (entries S t))
  erase_node-Refines_blocks t q valid = rw (erase-edit q (entries S t)) (
      with_order (λ t' a. a)
        (λ zs. edit-IsSorted put_nothing q (entries S t) zs (put_nothing-IsLocal q) valid.sorted)
        (erase_node-Edits S q t valid.avl valid.sorted (
          Fits-edit put_nothing q (entries S t) 0 (put_nothing_few _)
            (omega (arith, length-entries S t valid.avl, size-le S t valid.avl)))))

  set_Fits :
      (t : Tree B) (q : K) (w : V)
      → IsValid t
      → (Assoc.find q (entries S t) ≡ none → size t < u32_max)
      → Fits (edit (put_either q w) q (entries S t))
  set_Fits t q w valid room = elim (Option-cases (cut q (entries S t)).here) [
    | inl miss ↦ Fits-edit (put_either q w) q (entries S t) 1 (put_either_few q w _) (
        omega
          (arith, length-entries S t valid.avl, room (find-cut q (entries S t) ∙ ap value miss)))
    | inr (x, hit) ↦
        Fits-edit (put_either q w) q (entries S t) 0 (λ mid. put_either_held q w _ x mid hit)
          (omega (arith, length-entries S t valid.avl, size-le S t valid.avl))
  ]

  -- Over any blocks that keep the laws of the interface, on a valid tree, which has fewer than 2
  -- ^ 32 - 1 entries where the key is absent, `Set` returns a valid tree whose entries are the
  -- sorted list with the value put at the key.
  pub set_node-Gives_blocks :
      (t : Tree B) (q : K) (w : V)
      → IsValid t
      → (Assoc.find q (entries S t) ≡ none → size t < u32_max)
      → Gives IsValid (entries S) (set_node S t q w) (Assoc.set q w (entries S t))
  set_node-Gives_blocks t q w valid room =
      let (zs, e, (t', made, avl, same)) =
        set_node-Sets S q w t valid.avl valid.sorted (set_Fits t q w valid room) in
      let whole = same ∙ sym (some-injective _ _ (set-edit q w (entries S t) ∙ e)) in
      (
        t',
        made,
        record {
          avl = avl;
          sorted = subst IsSorted (sym same) (
              edit-IsSorted (put_either q w) q (entries S t) zs (put_either-IsLocal q w)
                valid.sorted e);
        },
        whole,
      )
