-- ===== src/ImmutableBlockTree/Change.antt =====
-- `UpdateNode`, as an edit of the entries.
use mathlib.Core.Option
use cpp_util.Util.{
  ℕ, ◌+◌, ◌≤◌, ◌<◌, max, ◌≡◌, refl, true, Option, none, some, List, ◌∷◌, ◌++◌, arith, ◌∙◌, ap, sym,
  subst, length, length-append, All, append_assoc,
}
use cpp_util.Container.Comparator.{Comparator}
use cpp_util.Container.Blocks.{Blocks}
use cpp_util.Container.Store.{u32_max, Refines, refused, returned}
use cpp_util.Container.Outcome.{Outcome}
use cpp_util.Container.Assoc.{IsSorted, After, Before, cut}
use cpp_util.Container.Assoc.Sorted.{IsSorted-left, IsSorted-right}
use cpp_util.Container.Assoc.Edit.{Fits, Fits-part, edit, edit-here, edit-nil, put_value}
use cpp_util.ImmutableTree.{lift}
use cpp_util.ImmutableBlockTree.{Tree, null, node, height, rebuild, update_node}
use cpp_util.ImmutableBlockTree.Avl.{IsAvl, entries}
use cpp_util.ImmutableBlockTree.InBlock.{around, rebuild-Gives, update_in_block_level}
use cpp_util.ImmutableBlockTree.Sides.{Where, Where-is, Held, held_cases}
use cpp_util.ImmutableBlockTree.Passed.{node_before, node_past, node_inside}

module _ {ℓ} {K V : Type ℓ} ⦃c : Comparator K⦄ (S : Blocks K V) (q : K) where
  open S use {B}

  -- A block that holds the key, with something else put there.
  pub edit_held :
      (f : Option (K × V) → Option (List (K × V))) (b : B) (l r : Tree B) (e : K × V)
      (mid : List (K × V))
      → f (some e) ≡ some mid
      → (cut q (S.view b)).here ≡ some e
      → All (Before q) (entries S l)
      → All (After q) (entries S r)
      → edit f q (around S l (S.view b) r)
        ≡ some (around S l ((cut q (S.view b)).below ++ (mid ++ (cut q (S.view b)).above)) r)
  edit_held f b l r e mid puts here below above =
      node_inside S f q b l r below above
      ∙ ap (Option.map (λ zs. around S l zs r))
          (edit-here f q (S.view b) (some e) (some mid) here puts)

  module _ (w : V) (keeps : (b : B) (i : ℕ) → i < S.count b → S.can_update b i w ≡ true) where
    -- An update keeps the shape of the tree, so that a node over it stays balanced.
    abbrev Level : ℕ → Tree B → Type 0
    Level h t = IsAvl S t × (height t ≡ h)

    abbrev Updates : Tree B → Outcome (Option (Tree B)) → List (K × V) → Type ℓ
    Updates t m es = Refines (Level (height t)) (entries S) m (edit (put_value w) q es)

    update_left :
        (b : B) (l r : Tree B) {m : Outcome (Option (Tree B))} {o : Option (List (K × V))}
        → S.IsBlock b
        → IsAvl S r
        → height l ≤ height r + 1
        → height r ≤ height l + 1
        → Fits (Option.map (λ zs. zs ++ (S.view b ++ entries S r)) o)
        → Refines (Level (height l)) (entries S) m o
        → Refines
            (Level (1 + max (height l) (height r)))
            (entries S)
            (lift (λ n. rebuild S b n r) m)
            (Option.map (λ zs. zs ++ (S.view b ++ entries S r)) o)
    update_left b l r kb ar dl dr fits refused = refused
    update_left b l r kb ar dl dr fits (returned {t = t} {es = es} (at, level) same) =
        let whole = ap (λ (zs : List (K × V)). zs ++ (S.view b ++ entries S r)) same in
        let (t', made, at', content, top) =
          rebuild-Gives S b t r kb at ar (omega arith) (omega arith)
            (subst (λ (zs : List (K × V)). length zs ≤ u32_max) (sym whole) (fits _ refl)) in
        rw made (returned (at', omega arith) (content ∙ whole))

    update_right :
        (b : B) (l r : Tree B) {m : Outcome (Option (Tree B))} {o : Option (List (K × V))}
        → S.IsBlock b
        → IsAvl S l
        → height l ≤ height r + 1
        → height r ≤ height l + 1
        → Fits (Option.map (λ zs. (entries S l ++ S.view b) ++ zs) o)
        → Refines (Level (height r)) (entries S) m o
        → Refines
            (Level (1 + max (height l) (height r)))
            (entries S)
            (lift (λ n. rebuild S b l n) m)
            (Option.map (λ zs. (entries S l ++ S.view b) ++ zs) o)
    update_right b l r kb al dl dr fits refused = refused
    update_right b l r kb al dl dr fits (returned {t = t} {es = es} (at, level) same) =
        let whole =
          sym (append_assoc (entries S l) (S.view b) (entries S t))
          ∙ ap (λ (zs : List (K × V)). (entries S l ++ S.view b) ++ zs) same in
        let (t', made, at', content, top) =
          rebuild-Gives S b l t kb al at (omega arith) (omega arith)
            (subst (λ (zs : List (K × V)). length zs ≤ u32_max) (sym whole) (fits _ refl)) in
        rw made (returned (at', omega arith) (content ∙ whole))

    pub update_node-Updates :
        (t : Tree B)
        → IsAvl S t
        → IsSorted (entries S t)
        → Fits (edit (put_value w) q (entries S t))
        → Updates t (update_node S t q w) (entries S t)
    unfolding update_node
    update_node-Updates null a sorted fits = rw (edit-nil (put_value w) q none refl) refused
    update_node-Updates (node b l r s h) (al, ar, es, eh, dl, dr, room, kb) sorted fits =
        let sorted_b = IsSorted-right (entries S l) (S.view b ++ entries S r) sorted in
        elim (Where-is S b q (entries S l) (entries S r) kb sorted) [
          | Where.is_left at beyond ↦
              let part = node_before S (put_value w) q b l r beyond in
              let fits' = subst Fits part fits in
              rw (at, eh, part, update_node)
                (update_left b l r kb ar dl dr fits' (
                  update_node-Updates l al (IsSorted-left (entries S l) _ sorted) (
                    Fits-part _ (λ es. omega (arith, length-append es (S.view b ++ entries S r))) _
                      fits')))
          | Where.is_right at beyond ↦
              let part = node_past S (put_value w) q b l r beyond in
              let fits' = subst Fits part fits in
              rw (at, eh, part, update_node)
                (update_right b l r kb al dl dr fits' (
                  update_node-Updates r ar (IsSorted-right (S.view b) _ sorted_b) (
                    Fits-part _ (λ es. omega (arith, length-append (entries S l ++ S.view b) es)) _
                      fits')))
          | Where.is_inside at below above ↦
              elim (held_cases S b q (IsSorted-left (S.view b) _ sorted_b)) [
                | Held.missing here view holds ↦
                    rw
                      (
                        at,
                        holds,
                        update_node,
                        node_inside S (put_value w) q b l r below above
                            ∙ ap (Option.map (λ zs. around S l zs r))
                                (edit-here (put_value w) q (S.view b) none none here refl),
                      )
                      refused
                | Held.held {e = e} here view holds ↦
                    let changed = edit_held (put_value w) b l r e _ refl here below above in
                    let bound = S.lower_bound_view b q (IsSorted-left (S.view b) _ sorted_b) in
                    let (t, made, avl, content, top) =
                      update_in_block_level S b l r (S.lower_bound b q) w _ e _ kb al ar dl dr view
                        (sym bound) (fits _ changed)
                        (keeps b (S.lower_bound b q) (
                          omega (
                            arith,
                            bound,
                            S.count_view b,
                            ap length view,
                            length-append (cut q (S.view b)).below (e ∷ (cut q (S.view b)).above),
                          ))) in
                    rw (at, holds, made, changed, eh, update_node) (returned (avl, top) content)
              ]
        ]
