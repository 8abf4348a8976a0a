-- ===== src/SharedPtr/Run.antt =====
-- New objects, the steps of a program, and whole programs.
use cpp_util.Util.{
  ℕ, zero, suc, ◌+◌, ◌≤◌, ◌<◌, ◌≡◌, sym, refl, ap, Option, none, some, List, [], ◌∷◌, ◌++◌,
  get_elem?, set, length, length-set, get_elem?-lt, arith, inl, inr, ◌⊎◌, subst,
}
use mathlib.Core.Option.{some-injective}
use cpp_util.Container.Outcome.{Outcome, ok, throw, ◌>>=◌}
use cpp_util.SharedPtr.{
  Policy, Heap, Object, alive, move_all, adopt, Op, new_null, adopt_new, copy_new, move_new,
  destroy, assign_null, copy_to, move_to, step,
}
use cpp_util.SharedPtr.Counted.{
  pointing, pointing-append, pointing-set, inner, inner-append, members_of, IsCounted,
  counted_alive, not_made,
}
use cpp_util.SharedPtr.Objects.{AreBelow}
use cpp_util.SharedPtr.Release.{AreSound-same}
use cpp_util.SharedPtr.Values.{without, without_all, moved_to}
use cpp_util.SharedPtr.Sound.{
  IsSound, HasRoom, PlaceIs, Returns, pointer_in-at, pointing_pos, room_for_one, Stands-inside,
  release_current-Returns, copy_construct-Returns,
}
use cpp_util.SharedPtr.Assign.{
  MayAssign, move_construct-Returns, copy_assign-Returns, move_assign-Returns,
}

-- Variables that were constructed.
abbrev pub AreVariables : ℕ → List ℕ → Type 0
AreVariables n [] = Unit
AreVariables n (x ∷ xs) = (x < n) × AreVariables n xs

-- The pointers that are moved are the ones that the variables lose.
move_all-pointing :
    (ps : List (Option ℕ)) (xs : List ℕ)
    → AreVariables (length ps) xs
    → (qs : List (Option ℕ)) × (ms : List (Option ℕ)) × (move_all ps xs ≡ ok (qs, ms))
      × ((i : ℕ) → pointing i qs + pointing i ms ≡ pointing i ps)
      × (qs ≡ without_all ps xs)
unfolding move_all
move_all-pointing ps [] inside = (ps, [], refl, λ i. omega arith, refl)
move_all-pointing ps (x ∷ xs) (here, rest) =
    let (p, at) = get_elem?-lt ps x here in
    let (qs, ms, made, same, values) =
      move_all-pointing (set ps x none) xs
        (subst (λ n. AreVariables n xs) (sym (length-set ps x none)) rest) in
    (
      qs,
      p ∷ ms,
      rw (pointer_in-at ps x p at, made, ◌>>=◌) refl,
      λ i. omega (arith, same i, pointing-set i ps x p none at),
      values,
    )

AreBelow-pointing :
    (n : ℕ) (ms : List (Option ℕ)) → ((k : ℕ) → 1 ≤ pointing k ms → k < n) → AreBelow n ms
AreBelow-pointing n [] h = tt
AreBelow-pointing n (none ∷ ms) h = AreBelow-pointing n ms (λ k pos. h k (omega arith))
AreBelow-pointing n (some k ∷ ms) h =
    (h k (pointing_pos (some k ∷ ms) 0 k refl), AreBelow-pointing n ms (λ j pos. h j (omega arith)))

-- The new object is pointed to by the new variable alone.
new_object :
    (objects : List Object) (ms : List (Option ℕ)) (i m : ℕ)
    → IsCounted (get_elem? objects i) m
    → IsCounted
        (get_elem? (objects ++ alive 1 ms ∷ []) i)
        (m + pointing i (some (length objects) ∷ []))
new_object [] ms zero m not_made = counted_alive (omega arith)
new_object [] ms (suc i) m not_made = subst (IsCounted none) (ground arith) not_made
new_object (o ∷ objects) ms zero m c = subst (IsCounted (some o)) (ground arith) c
new_object (o ∷ objects) ms (suc i) m c =
    let next : pointing i (some (length objects) ∷ [])
        ≡ pointing (suc i) (some (suc (length objects)) ∷ []) =
      ground arith in
    rw (← next) (new_object objects ms i m c)

append-cases :
    (objects : List Object) (o v : Object) (k : ℕ)
    → get_elem? (objects ++ o ∷ []) k ≡ some v
    → (get_elem? objects k ≡ some v) ⊎ ((k ≡ length objects) × (o ≡ v))
append-cases [] o v zero at = inr (refl, some-injective o v at)
append-cases [] o v (suc k) at = absurd (cc at)
append-cases (x ∷ os) o v zero at = inl at
append-cases (x ∷ os) o v (suc k) at = elim (append-cases os o v k at) [
  | inl before ↦ inl before
  | inr (last, same) ↦ inr (ap suc last, same)
]

adopt-Returns :
    (h : Heap) (xs : List ℕ)
    → IsSound h
    → HasRoom h
    → AreVariables (length h.variables) xs
    → Returns (adopt h xs) (without_all h.variables xs ++ some (length h.objects) ∷ [])
unfolding adopt
adopt-Returns h xs s room inside =
    let (qs, ms, made, same, values) = move_all-pointing h.variables xs inside in
    let last = length h.objects in
    let total : (i : ℕ)
        → pointing i (qs ++ some last ∷ []) + inner i (h.objects ++ alive 1 ms ∷ [])
          ≡ pointing i h.variables + inner i h.objects + pointing i (some last ∷ []) =
      λ i. omega (
        arith,
        pointing-append i qs (some last ∷ []),
        inner-append i h.objects (alive 1 ms ∷ []),
        same i,
      ) in
    let below =
      AreBelow-pointing last ms (λ k pos. Stands-inside h.objects _ k s (omega (arith, same k))) in
    (
      record { objects = h.objects ++ alive 1 ms ∷ []; variables = qs ++ some last ∷ [] },
      rw (made, ◌>>=◌) refl,
      record {
        counted = λ i. rw (total i) (new_object h.objects ms i _ (s.counted i));
        small = λ i. rw (total i) (ground (arith, room_for_one h room i));
        ordered = λ k n us at. elim (append-cases h.objects (alive 1 ms) (alive n us) k at) [
          | inl before ↦ s.ordered k n us before
          | inr (is_last, same_object) ↦ rw (is_last, ← ap members_of same_object) below
        ];
      },
      ap (λ ps. ps ++ some (length h.objects) ∷ []) values,
    )

-- What a step asks of a program: the variables that it names were constructed, a place that it reads
-- is one, and an assignment takes no member of an object that the target alone may keep alive.
abbrev pub MayDo : Heap → Op → Type 0
MayDo h new_null = Unit
MayDo h (adopt_new xs) = AreVariables (length h.variables) xs
MayDo h (copy_new y) = (p : Option ℕ) × PlaceIs h y p
MayDo h (move_new y) = (p : Option ℕ) × PlaceIs h y p
MayDo h (destroy x) = x < length h.variables
MayDo h (assign_null x) = x < length h.variables
MayDo h (copy_to x y) =
    (x < length h.variables) × ((p : Option ℕ) × PlaceIs h y p) × MayAssign h x y
MayDo h (move_to x y) =
    (x < length h.variables) × ((p : Option ℕ) × PlaceIs h y p) × MayAssign h x y

-- What the variables hold after a step: a copy or a move gives the pointer that stood at the place,
-- and no variable changes but the target and the sources of moves.
abbrev pub values : (h : Heap) (op : Op) → MayDo h op → List (Option ℕ)
values h new_null may = h.variables ++ none ∷ []
values h (adopt_new xs) may = without_all h.variables xs ++ some (length h.objects) ∷ []
values h (copy_new y) may = h.variables ++ may.0 ∷ []
values h (move_new y) may = without h.variables y ++ may.0 ∷ []
values h (destroy x) may = set h.variables x none
values h (assign_null x) may = set h.variables x none
values h (copy_to x y) may = set h.variables x may.1.0
values h (move_to x y) may = moved_to h.variables x y may.1.0

pub step-Returns :
    (policy : Policy) (h : Heap) (op : Op)
    → IsSound h
    → HasRoom h
    → (may : MayDo h op) → Returns (step policy h op) (values h op may)
unfolding step
step-Returns policy h new_null s room may = (
  record h { variables = h.variables ++ none ∷ [] },
  refl,
  AreSound-same h.objects _ _ (λ i. omega (arith, pointing-append i h.variables (none ∷ []))) s,
  refl,
)
step-Returns policy h (adopt_new xs) s room may = adopt-Returns h xs s room may
step-Returns policy h (copy_new y) s room (p, at) = copy_construct-Returns h y p s room at
step-Returns policy h (move_new y) s room (p, at) = move_construct-Returns h y p s at
step-Returns policy h (destroy x) s room may = release_current-Returns policy h x s may
step-Returns policy h (assign_null x) s room may = release_current-Returns policy h x s may
step-Returns policy h (copy_to x y) s room (inside, (p, at), may) =
    copy_assign-Returns policy h x y p s room inside at may
step-Returns policy h (move_to x y) s room (inside, (p, at), may) =
    move_assign-Returns policy h x y p s inside at may

-- What holds of the heap that a call returns.
abbrev pub After : Outcome Heap → (Heap → Type 0) → Type 0
After (ok h) P = P h
After (throw e) P = Unit

-- Each step finds room and what it asks for, in the heap that the steps before it have left.
abbrev pub IsProgram : Policy → Heap → List Op → Type 0
IsProgram policy h [] = Unit
IsProgram policy h (op ∷ ops) =
    HasRoom h × MayDo h op × After (step policy h op) (λ h'. IsProgram policy h' ops)

-- The steps of a program, each from a sound heap to a sound heap with the variables that it is to have.
pub data Goes : Heap → List Op → Heap → Type 0 where
  done : {h : Heap} → Goes h [] h
  next :
      {h h' h2 : Heap} {op : Op} {ops : List Op} (may : MayDo h op)
      → IsSound h'
      → h'.variables ≡ values h op may
      → Goes h' ops h2
      → Goes h (op ∷ ops) h2

-- The call returns a sound heap to which the steps lead.
abbrev pub Ends : Outcome Heap → Heap → List Op → Type 0
Ends m h ops = (h' : Heap) × (m ≡ ok h') × IsSound h' × Goes h ops h'
