-- ===== src/ImmutableBlockTree/Passed.antt =====
-- The edit of the entries of a node, by the side on which the key is: one that lies in a subtree is
-- passed on to it, and the node over it is rebuilt.
use mathlib.Core.Option
use mathlib.Core.Option.{some-injective}
use cpp_util.Util.{
  ◌≤◌, ◌≡◌, refl, Option, some, List, ◌++◌, arith, ◌∙◌, ap, sym, subst, length, length-append, All,
  append_assoc,
}
use cpp_util.Container.Comparator.{Comparator}
use cpp_util.Container.Blocks.{Blocks}
use cpp_util.Container.Store.{u32_max, Refines, refused, returned}
use cpp_util.Container.Outcome.{Outcome, ok, ◌>>=◌}
use cpp_util.Container.Assoc.{After, Before}
use cpp_util.Container.Assoc.Edit.{Fits, edit, edit-before, edit-past, edit-between}
use cpp_util.ImmutableTree.{lift}
use cpp_util.ImmutableBlockTree.{Tree, normalize_node}
use cpp_util.ImmutableBlockTree.Avl.{IsAvl, entries}
use cpp_util.ImmutableBlockTree.Normalize.{Gives, normalize_node-Gives}
use cpp_util.ImmutableBlockTree.InBlock.{around}

module _ {ℓ} {K V : Type ℓ} ⦃c : Comparator K⦄ (S : Blocks K V) where
  open S use {B}

  -- What a call that changes a subtree comes to, with the node over it rebuilt.
  pub lift-before :
      (b : B) (r : Tree B) {m : Outcome (Option (Tree B))} {o : Option (List (K × V))}
      → S.IsBlock b
      → IsAvl S r
      → Fits (Option.map (λ zs. zs ++ (S.view b ++ entries S r)) o)
      → Refines (IsAvl S) (entries S) m o
      → Refines
          (IsAvl S)
          (entries S)
          (lift (λ n. normalize_node S b n r) m)
          (Option.map (λ zs. zs ++ (S.view b ++ entries S r)) o)
  lift-before b r kb ar fits refused = refused
  lift-before b r kb ar fits (returned {t = t} {es = es} at same) =
      let whole = ap (λ (zs : List (K × V)). zs ++ (S.view b ++ entries S r)) same in
      let (t', made, at', content) =
        normalize_node-Gives S b t r kb at ar
          (subst (λ (zs : List (K × V)). length zs ≤ u32_max) (sym whole) (fits _ refl)) in
      rw made (returned at' (content ∙ whole))

  pub lift-past :
      (b : B) (l : Tree B) {m : Outcome (Option (Tree B))} {o : Option (List (K × V))}
      → S.IsBlock b
      → IsAvl S l
      → Fits (Option.map (λ zs. (entries S l ++ S.view b) ++ zs) o)
      → Refines (IsAvl S) (entries S) m o
      → Refines
          (IsAvl S)
          (entries S)
          (lift (λ n. normalize_node S b l n) m)
          (Option.map (λ zs. (entries S l ++ S.view b) ++ zs) o)
  lift-past b l kb al fits refused = refused
  lift-past b l kb al fits (returned {t = t} {es = es} at same) =
      let whole =
        sym (append_assoc (entries S l) (S.view b) (entries S t))
        ∙ ap (λ (zs : List (K × V)). (entries S l ++ S.view b) ++ zs) same in
      let (t', made, at', content) =
        normalize_node-Gives S b l t kb al at
          (subst (λ (zs : List (K × V)). length zs ≤ u32_max) (sym whole) (fits _ refl)) in
      rw made (returned at' (content ∙ whole))

  -- The edit of the entries of a node, by the side on which the key is.
  module _ (f : Option (K × V) → Option (List (K × V))) (q : K) (b : B) (l r : Tree B) where
    pub node_before :
        All (After q) (S.view b ++ entries S r)
        → edit f q (around S l (S.view b) r)
          ≡ Option.map (λ zs. zs ++ (S.view b ++ entries S r)) (edit f q (entries S l))
    node_before h = edit-before f q (entries S l) (S.view b ++ entries S r) h

    pub node_past :
        All (Before q) (entries S l ++ S.view b)
        → edit f q (around S l (S.view b) r)
          ≡ Option.map (λ zs. (entries S l ++ S.view b) ++ zs) (edit f q (entries S r))
    node_past h =
        ap (edit f q) (sym (append_assoc (entries S l) (S.view b) (entries S r)))
        ∙ edit-past f q (entries S l ++ S.view b) (entries S r) h

    pub node_inside :
        All (Before q) (entries S l)
        → All (After q) (entries S r)
        → edit f q (around S l (S.view b) r)
          ≡ Option.map (λ zs. around S l zs r) (edit f q (S.view b))
    node_inside h k = edit-between f q (entries S l) (S.view b) (entries S r) h k

  -- A call that changes the node itself.
  pub returns :
      {m : Outcome (Tree B)} (es : List (K × V)) {o : Option (List (K × V))}
      → o ≡ some es
      → Gives S m es
      → Refines (IsAvl S) (entries S) (m >>= λ n. ok (some n)) o
  returns es e (t, made, at, content) = rw (made, e) (returned at content)

  pub around-longer : (l r : Tree B) (es : List (K × V)) → length es ≤ length (around S l es r)
  around-longer l r es =
      omega (arith, length-append (entries S l) (es ++ entries S r), length-append es (entries S r))
