-- ===== src/SharedPtr/Assign.antt =====
-- Moves out of a place, and the assignments.
use cpp_util.Util.{
  ℕ, ◌+◌, ◌-◌, ◌≤◌, ◌<◌, ◌≡◌, ◌∙◌, sym, refl, ap, false, true, Option, none, some, List, [], ◌∷◌,
  ◌++◌, ◌==◌, get_elem?, set, length, get_elem?-lt, arith, inl, inr, Bool-cases, subst,
}
use mathlib.Core.Option.{some-injective}
use cpp_util.Container.Outcome.{◌>>=◌}
use cpp_util.SharedPtr.{
  Policy, Heap, Object, alive, Place, variable, member, set_null, move_construct, is_same,
  copy_assign, move_assign,
}
use cpp_util.SharedPtr.Counted.{
  hit, pointing, pointing-append, pointing-set, inner, inner-set, members_of, get_elem?-set,
  IsCounted, counted_alive,
}
use cpp_util.SharedPtr.Objects.{
  IsCounted-alive, AllCounted-set, object_at-alive, AreOrdered, Keeps, Keeps-trans,
}
use cpp_util.SharedPtr.Release.{AreSound, AreSound-same, retain-Leaves}
use cpp_util.SharedPtr.Values.{set_twice, set-is_same, without, moved_to}
use cpp_util.SharedPtr.Sound.{
  IsSound, HasRoom, PlaceIs, Returns, get-PlaceIs, pointing_pos, inner_pos, PlaceIs-Stands,
  room_for_one, release_current-Leaves, AreBelow-null,
}

ordered_null :
    (objects : List Object) (i n k : ℕ) (ms : List (Option ℕ))
    → AreOrdered objects
    → get_elem? objects i ≡ some (alive n ms)
    → AreOrdered (set objects i (alive n (set ms k none)))
ordered_null objects i n k ms ordered at j m us here = elim (Bool-cases (j == i)) [
  | inl e ↦
      let j_is_i : j ≡ i = ground arith in
      let there : some (alive n (set ms k none)) ≡ some (alive m us) =
        sym (get_elem?-set objects i (alive n (set ms k none)) j (alive n ms) at ∙ rw e refl)
        ∙ here in
      let same : set ms k none ≡ us = ap members_of (some-injective _ _ there) in
      rw (j_is_i, ← same) (AreBelow-null i ms k (ordered i n ms at))
  | inr e ↦
      ordered j m us (
        sym (get_elem?-set objects i (alive n (set ms k none)) j (alive n ms) at ∙ rw e refl)
        ∙ here)
]

-- A member is set to null: its pointer is one from outside.
null_member :
    (objects : List Object) (f : ℕ → ℕ) (i n k : ℕ) (ms : List (Option ℕ)) (p : Option ℕ)
    → AreSound objects f
    → get_elem? objects i ≡ some (alive n ms)
    → get_elem? ms k ≡ some p
    → AreSound (set objects i (alive n (set ms k none))) (λ j. f j + hit j p)
null_member objects f i n k ms p s at at_k =
    let total : (j : ℕ)
        → f j + hit j p + inner j (set objects i (alive n (set ms k none)))
          ≡ f j + inner j objects =
      λ j. omega (
        arith,
        inner-set j objects i (alive n ms) (alive n (set ms k none)) at,
        pointing-set j ms k p none at_k,
      ) in
    let count : IsCounted (some (alive n ms)) (f i + inner i objects) =
      subst (λ o. IsCounted o (f i + inner i objects)) at (s.counted i) in
    record {
      counted =
          AllCounted-set objects (λ j. f j + inner j objects) _ i (alive n (set ms k none))
            (alive n ms) at s.counted
            (subst (λ c. IsCounted (some (alive n (set ms k none))) c) (sym (total i))
              (other_members n _ ms (set ms k none) count))
            (λ j differ. total j);
      small = λ j. omega (arith, s.small j, total j);
      ordered = ordered_null objects i n k ms s.ordered at;
    }
  where
    other_members :
        (n c : ℕ) (us vs : List (Option ℕ))
        → IsCounted (some (alive n us)) c
        → IsCounted (some (alive n vs)) c
    other_members n c us vs (counted_alive pos) = counted_alive pos

pub move_construct-Returns :
    (h : Heap) (y : Place) (p : Option ℕ)
    → IsSound h
    → PlaceIs h y p
    → Returns (move_construct h y) (without h.variables y ++ p ∷ [])
unfolding move_construct set_null
move_construct-Returns h (variable x) p s at = (
  record h { variables = set h.variables x none ++ p ∷ [] },
  rw (get-PlaceIs h (variable x) p at, ◌>>=◌) refl,
  AreSound-same h.objects _ _
      (λ i. omega (
        arith,
        pointing-append i (set h.variables x none) (p ∷ []),
        pointing-set i h.variables x p none at,
      ))
      s,
  refl,
)
move_construct-Returns h (member i k) p s (n, ms, at, at_k) = (
  record { objects = set h.objects i (alive n (set ms k none)); variables = h.variables ++ p ∷ [] },
  rw (get-PlaceIs h (member i k) p (n, ms, at, at_k), object_at-alive h.objects i n ms at, ◌>>=◌)
      refl,
  AreSound-same _ _ _ (λ j. omega (arith, pointing-append j h.variables (p ∷ [])))
      (null_member h.objects _ i n k ms p s at at_k),
  refl,
)

-- An object that variables other than `x` reach, through members of living objects.
pub data Reaches (h : Heap) (x : ℕ) : ℕ → Type 0 where
  by_variable :
      (z : ℕ) {i : ℕ} → (x == z) ≡ false → get_elem? h.variables z ≡ some (some i) → Reaches h x i
  by_member :
      (j k n : ℕ) {i : ℕ} (ms : List (Option ℕ))
      → Reaches h x j
      → get_elem? h.objects j ≡ some (alive n ms)
      → get_elem? ms k ≡ some (some i)
      → Reaches h x i

-- What a program may assign from: a variable, or a member of an object that it reaches otherwise.
abbrev pub MayAssign : Heap → ℕ → Place → Type 0
MayAssign h x (variable z) = Unit
MayAssign h x (member i k) = Reaches h x i

other_variable :
    (ps : List (Option ℕ)) (x z : ℕ) (p q : Option ℕ)
    → get_elem? ps x ≡ some p
    → (x == z) ≡ false
    → get_elem? (set ps x q) z ≡ get_elem? ps z
other_variable ps x z p q at differ =
    let other : (z == x) ≡ false = ground arith in rw (get_elem?-set ps x q z p at, other) refl

null_there :
    (ps : List (Option ℕ)) (x : ℕ) (p q : Option ℕ)
    → get_elem? ps x ≡ some p
    → get_elem? (set ps x q) x ≡ some q
null_there ps x p q at =
    let self : (x == x) ≡ true = ground arith in rw (get_elem?-set ps x q x p at, self) refl

-- The objects when the pointer in `x` has been dropped, and some other pointers have come.
module _ (h : Heap) (x : ℕ) (p : Option ℕ) (at_x : get_elem? h.variables x ≡ some p)
    (objects : List Object) (f : ℕ → ℕ) (s : AreSound objects f) (keeps : Keeps h.objects objects)
    (more : (i : ℕ) → pointing i (set h.variables x none) ≤ f i) where
  members_kept :
      (j n : ℕ) (ms : List (Option ℕ))
      → get_elem? h.objects j ≡ some (alive n ms)
      → 1 ≤ f j + inner j objects
      → (n' : ℕ) × (get_elem? objects j ≡ some (alive n' ms))
  members_kept j n ms at pos =
      let (us, here) = IsCounted-alive _ (f j + inner j objects) (s.counted j) pos in
      let (n0, before) = keeps j _ us here in
      let same : us ≡ ms =
        ap members_of (some-injective (alive n0 us) (alive n ms) (sym before ∙ at)) in
      (f j + inner j objects, here ∙ ap (λ vs. some (alive (f j + inner j objects) vs)) same)

  reached_pos : (i : ℕ) → Reaches h x i → 1 ≤ f i + inner i objects
  reached_pos i (by_variable z differ at) = omega (
    arith,
    more i,
    pointing_pos (set h.variables x none) z i
        (other_variable h.variables x z p none at_x differ ∙ at),
  )
  reached_pos i (by_member j k n ms r at at_k) =
      let (n', here) = members_kept j n ms at (reached_pos j r) in
      omega (arith, inner_pos objects j n' k i ms here at_k)

  still_there :
      (y : Place) (q : Option ℕ)
      → is_same x y ≡ false
      → MayAssign h x y
      → PlaceIs h y q
      → PlaceIs (record { objects = objects; variables = set h.variables x none }) y q
  unfolding is_same
  still_there (variable z) q differ may at = other_variable h.variables x z p none at_x differ ∙ at
  still_there (member i k) q differ may (n, ms, at, at_k) =
      let (n', here) = members_kept i n ms at (reached_pos i may) in (n', ms, here, at_k)

kept_same :
    (h : Heap) (x : ℕ) (y : Place) (q : Option ℕ)
    → PlaceIs h y q
    → is_same x y ≡ true
    → h.variables ≡ set h.variables x q
unfolding is_same
kept_same h x (variable z) q at same = set-is_same h.variables x z q at same
kept_same h x (member i k) q at same = absurd (cc same)

pub copy_assign-Returns :
    (policy : Policy) (h : Heap) (x : ℕ) (y : Place) (q : Option ℕ)
    → IsSound h
    → HasRoom h
    → x < length h.variables
    → PlaceIs h y q
    → MayAssign h x y
    → Returns (copy_assign policy h x y) (set h.variables x q)
unfolding copy_assign
copy_assign-Returns policy h x y q s room inside at may = elim (Bool-cases (is_same x y)) [
  | inl same ↦ (h, rw (same, copy_assign) refl, s, kept_same h x y q at same)
  | inr differ ↦
      let (p, at_x) = get_elem?-lt h.variables x inside in
      let (objects1, kept, s1, keeps1) =
        retain-Leaves h.objects _ q s (room_for_one h room) (PlaceIs-Stands h y q at) in
      let (objects2, made, s2, keeps2) =
        release_current-Leaves policy objects1 h.variables x _ p s1 (λ i. omega arith) at_x in
      let again =
        still_there h x p at_x objects2 _ s2 (Keeps-trans h.objects objects1 objects2 keeps1 keeps2)
          (λ i. omega (arith, pointing-set i h.variables x p none at_x)) y q differ may at in
      (
        record { objects = objects2; variables = set (set h.variables x none) x q },
        rw
            (
              differ,
              get-PlaceIs h y q at,
              kept,
              made,
              get-PlaceIs (record { objects = objects2; variables = set h.variables x none }) y q
                  again,
              copy_assign,
              ◌>>=◌,
            )
            refl,
        AreSound-same objects2 _ _
            (λ i. omega (
              arith,
              pointing-set i h.variables x p none at_x,
              pointing-set i (set h.variables x none) x none q
                  (null_there h.variables x p none at_x),
            ))
            s2,
        set_twice h.variables x none q,
      )
]

-- The source of a move is set to null, and its pointer stands in `x`.
moved :
    (objects : List Object) (ps : List (Option ℕ)) (x : ℕ) (y : Place) (q : Option ℕ) (f : ℕ → ℕ)
    → AreSound objects f
    → ((i : ℕ) → f i ≡ pointing i ps)
    → get_elem? ps x ≡ some none
    → is_same x y ≡ false
    → PlaceIs (record { objects = objects; variables = ps }) y q
    → Returns
        (set_null (record { objects = objects; variables = set ps x q }) y)
        (without (set ps x q) y)
unfolding set_null is_same
moved objects ps x (variable z) q f s same at_x differ at = (
  record { objects = objects; variables = set (set ps x q) z none },
  refl,
  AreSound-same objects _ _
      (λ i. omega (
        arith,
        same i,
        pointing-set i ps x none q at_x,
        pointing-set i (set ps x q) z q none (other_variable ps x z none q at_x differ ∙ at),
      ))
      s,
  refl,
)
moved objects ps x (member i k) q f s same at_x differ (n, ms, at, at_k) = (
  record { objects = set objects i (alive n (set ms k none)); variables = set ps x q },
  rw (object_at-alive objects i n ms at, ◌>>=◌) refl,
  AreSound-same _ _ _ (λ j. omega (arith, same j, pointing-set j ps x none q at_x))
      (null_member objects f i n k ms q s at at_k),
  refl,
)

pub move_assign-Returns :
    (policy : Policy) (h : Heap) (x : ℕ) (y : Place) (q : Option ℕ)
    → IsSound h
    → x < length h.variables
    → PlaceIs h y q
    → MayAssign h x y
    → Returns (move_assign policy h x y) (moved_to h.variables x y q)
unfolding move_assign
move_assign-Returns policy h x y q s inside at may = elim (Bool-cases (is_same x y)) [
  | inl same ↦ (h, rw (same, move_assign) refl, s, rw (same, moved_to) refl)
  | inr differ ↦
      let (p, at_x) = get_elem?-lt h.variables x inside in
      let (objects', made, s', keeps) =
        release_current-Leaves policy h.objects h.variables x _ p s (λ i. omega arith) at_x in
      let now : (i : ℕ) → pointing i h.variables - hit i p ≡ pointing i (set h.variables x none) =
        λ i. omega (arith, pointing-set i h.variables x p none at_x) in
      let again =
        still_there h x p at_x objects' _ s' keeps (λ i. omega (arith, now i)) y q differ may at in
      let (h', nulled, sound, values) =
        moved objects' (set h.variables x none) x y q _ s' now
          (null_there h.variables x p none at_x) differ again in
      (
        h',
        rw
            (
              differ,
              made,
              get-PlaceIs (record { objects = objects'; variables = set h.variables x none }) y q
                  again,
              move_assign,
              ◌>>=◌,
            )
            nulled,
        sound,
        rw (differ, moved_to) (values ∙ ap (λ ps. without ps y) (set_twice h.variables x none q)),
      )
]
