-- ===== src/ImmutableBlockTree/Sides.antt =====
-- The tests that a walk makes at a node: on which side of the block a key is, and whether the block
-- holds it.
use cpp_util.Util.{
  ℕ, suc, ◌-◌, ◌≤◌, ◌≡◌, refl, Bool, true, false, not, ◌&&◌, none, some, List, [], ◌∷◌, ◌++◌, arith,
  inl, inr, Bool-cases, Option-cases, ◌∙◌, ap, sym, subst, length, length-append, All, All-append,
  All-imp, append_assoc, ltb,
}
use cpp_util.Container.Comparator.{Comparator, Equiv}
use cpp_util.Container.Blocks.{Blocks}
use cpp_util.Container.Outcome.{ok}
use cpp_util.Container.Assoc.{IsSorted, Before, After, cut}
use cpp_util.Container.Assoc.Cutting.{entry, join-cut, here-IsHit, IsHit}
use cpp_util.Container.Assoc.Laws.{above-After}
use cpp_util.Container.Assoc.Sorted.{IsSorted-right, All-Before, All-Before_le, All-After_le}
use cpp_util.ImmutableBlockTree.{to_left, inside, to_right, side, holds_at}

and_false : (a : Bool) → (a && false) ≡ false
and_false true = refl
and_false false = refl

module _ {ℓ} {A : Type ℓ} where
  first_of : (xs : List A) → 1 ≤ length xs → (x : A) × (ys : List A) × (xs ≡ x ∷ ys)
  first_of [] h = absurd (omega arith)
  first_of (x ∷ xs) h = (x, xs, refl)

  last_of : (x : A) (xs : List A) → (ys : List A) × (y : A) × (x ∷ xs ≡ ys ++ y ∷ [])
  last_of x [] = ([], x, refl)
  last_of x (x' ∷ xs) = let (ys, y, e) = last_of x' xs in (x ∷ ys, y, ap (◌∷◌ x) e)

module _ {ℓ} {K V : Type ℓ} ⦃c : Comparator K⦄ (S : Blocks K V) where
  open S use {B}

  -- Where the key is, with what that says of the entries on the other side, given those before the
  -- block (`xs`) and those behind it (`ys`).
  pub data Where (b : B) (q : K) (xs ys : List (K × V)) : Type ℓ where
    is_left : side S b q ≡ ok to_left → All (After q) (S.view b ++ ys) → Where b q xs ys
    is_right : side S b q ≡ ok to_right → All (Before q) (xs ++ S.view b) → Where b q xs ys
    is_inside : side S b q ≡ ok inside → All (Before q) xs → All (After q) ys → Where b q xs ys

  pub Where-is :
      (b : B) (q : K) (xs ys : List (K × V))
      → S.IsBlock b
      → IsSorted (xs ++ (S.view b ++ ys))
      → Where b q xs ys
  unfolding side
  Where-is b q xs ys kb sorted =
      let (f, rest, view_f) =
        first_of (S.view b) (omega (arith, S.count_view b, S.count_pos b kb)) in
      let (init, l, last) = last_of f rest in
      let view_l : S.view b ≡ init ++ l ∷ [] = view_f ∙ last in
      let front : S.key_at b 0 ≡ ok f.0 = S.key_at_view b 0 [] f rest view_f refl in
      let back : S.key_at b (S.count b - 1) ≡ ok l.0 =
        S.key_at_view b (S.count b - 1) init l [] view_l
          (omega (arith, S.count_view b, ap length view_l, length-append init (l ∷ []))) in
      let sorted_f : IsSorted (xs ++ f ∷ (rest ++ ys)) =
        subst (λ es. IsSorted (xs ++ (es ++ ys))) view_f sorted in
      let sorted_l : IsSorted ((xs ++ init) ++ l ∷ ys) =
        subst IsSorted (regroup xs init l ys)
          (subst (λ es. IsSorted (xs ++ (es ++ ys))) view_l sorted) in
      elim (Bool-cases (c.less q f.0)) [
        | inl p ↦ is_left (rw (front, p, side) refl) (
            subst (λ es. All (After q) (es ++ ys)) (sym view_f)
              (
                p,
                All-imp (After f.0) (After q) (λ e h. c.trans q f.0 e.0 p h) (rest ++ ys)
                    (IsSorted-right xs (f ∷ (rest ++ ys)) sorted_f).0,
              ))
        | inr n ↦ elim (Bool-cases (c.less l.0 q)) [
          | inl p ↦ is_right (rw (front, n, back, p, side) refl) (
              subst (λ es. All (Before q) (xs ++ es)) (sym view_l)
                (subst (All (Before q)) (append_assoc xs init (l ∷ [])) (
                  All-append (Before q) (xs ++ init) (l ∷ [])
                    (All-imp (Before l.0) (Before q) (λ e h. c.trans e.0 l.0 q h p) (xs ++ init)
                      (All-Before (xs ++ init) ys l sorted_l))
                    (p, tt))))
          | inr m ↦
              is_inside (rw (front, n, back, m, side) refl)
                (All-Before_le f.0 q n xs (All-Before xs (rest ++ ys) f sorted_f))
                (All-After_le l.0 q m ys (IsSorted-right (xs ++ init) (l ∷ ys) sorted_l).0)
        ]
      ]
    where
      regroup :
          (xs init : List (K × V)) (l : K × V) (ys : List (K × V))
          → xs ++ ((init ++ l ∷ []) ++ ys) ≡ (xs ++ init) ++ l ∷ ys
      regroup xs init l ys = simp append_assoc

  -- Whether the block holds the key at its lower bound, and the parts of the block there.
  pub data Held (b : B) (q : K) : Type ℓ where
    held :
        {e : K × V}
        → (cut q (S.view b)).here ≡ some e
        → S.view b ≡ (cut q (S.view b)).below ++ e ∷ (cut q (S.view b)).above
        → holds_at S b (S.lower_bound b q) q ≡ ok true
        → Held b q
    missing :
        (cut q (S.view b)).here ≡ none
        → S.view b ≡ (cut q (S.view b)).below ++ (cut q (S.view b)).above
        → holds_at S b (S.lower_bound b q) q ≡ ok false
        → Held b q

  -- The test at an index, by what stands there.
  holds_end : (b : B) (i : ℕ) (q : K) → S.count b ≤ i → holds_at S b i q ≡ ok false
  unfolding holds_at
  holds_end b i q h =
      let past : ltb i (S.count b) ≡ false = ground arith in rw (past, holds_at) refl

  holds_entry :
      (b : B) (i : ℕ) (q : K) (xs : List (K × V)) (e : K × V) (ys : List (K × V))
      → S.view b ≡ xs ++ e ∷ ys
      → length xs ≡ i
      → holds_at S b i q ≡ ok (not (c.less e.0 q) && not (c.less q e.0))
  unfolding holds_at
  holds_entry b i q xs e ys view at =
      let there : ltb i (S.count b) ≡ true =
        lt (omega (arith, S.count_view b, ap length view, length-append xs (e ∷ ys))) in
      rw (there, S.key_at_view b i xs e ys view at, holds_at) refl
    where
      lt : {a b : ℕ} → suc a ≤ b → ltb a b ≡ true
      lt {a} {b} h = ground arith

  pub held_cases : (b : B) (q : K) → IsSorted (S.view b) → Held b q
  held_cases b q sorted =
      let bound = S.lower_bound_view b q sorted in
      elim (Option-cases (cut q (S.view b)).here) [
        | inr (e, here) ↦
            let view : S.view b ≡ (cut q (S.view b)).below ++ e ∷ (cut q (S.view b)).above =
              sym (join-cut q (S.view b))
              ∙ ap (λ o. (cut q (S.view b)).below ++ entry o (cut q (S.view b)).above) here in
            let hit : Equiv q e.0 = subst (IsHit q) here (here-IsHit q (S.view b)) in
            held here view (rw bound (holds_entry b _ q _ e _ view refl) ∙ ap ok (equal e.0 hit))
        | inl here ↦
            let view : S.view b ≡ (cut q (S.view b)).below ++ (cut q (S.view b)).above =
              sym (join-cut q (S.view b))
              ∙ ap (λ o. (cut q (S.view b)).below ++ entry o (cut q (S.view b)).above) here in
            missing here view (
              rw bound (
                absent (cut q (S.view b)).below (cut q (S.view b)).above view
                  (above-After q (S.view b) sorted)))
      ]
    where
      equal : (k : K) → Equiv q k → (not (c.less k q) && not (c.less q k)) ≡ true
      equal k h = rw (h.0, h.1) refl

      absent :
          (xs ys : List (K × V))
          → S.view b ≡ xs ++ ys
          → All (After q) ys
          → holds_at S b (length xs) q ≡ ok false
      absent xs [] view h =
          holds_end b (length xs) q
            (omega (arith, S.count_view b, ap length view, length-append xs []))
      absent xs (y ∷ ys) view h =
          holds_entry b (length xs) q xs y ys view refl
          ∙ ap ok (rw h.0 (and_false (not (c.less y.0 q))))
