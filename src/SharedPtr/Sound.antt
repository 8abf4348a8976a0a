-- ===== src/SharedPtr/Sound.antt =====
-- The heap: sound objects, the places that a program names, and the constructors and destructors.
use cpp_util.Util.{
  ℕ, zero, suc, ◌+◌, ◌-◌, ◌^◌, ◌≤◌, ◌<◌, ◌≡◌, refl, Option, none, some, List, [], ◌∷◌, ◌++◌,
  get_elem?, set, length, get_elem?-lt, arith,
}
use cpp_util.Container.Outcome.{Outcome, ok, ◌>>=◌}
use cpp_util.SharedPtr.{
  Policy, Heap, Object, alive, deleted, Place, variable, member, pointer_in, get, release_current,
  copy_construct,
}
use cpp_util.SharedPtr.Counted.{
  hit, pointing, pointing-append, pointing-set, pointing-length, inner, inner-set, inner-slots,
  slots, get_elem?-inside,
}
use cpp_util.SharedPtr.Objects.{hit_self, IsCounted-alive, object_at-alive, AreBelow, Keeps}
use cpp_util.SharedPtr.Release.{
  AreSound, AreSound-same, Held, Stands, retain-Leaves, release-Leaves,
}

-- Every object that a variable or a member of a living object points to lives, with their number as
-- its count, and every other one was deleted.
abbrev pub IsSound : Heap → Type 0
IsSound h = AreSound h.objects (λ i. pointing i h.variables)

-- There is room for one pointer more, below 2 ^ 64.
abbrev pub HasRoom : Heap → Type 0
HasRoom h = length h.variables + slots h.objects + 1 < 2 ^ 64

-- The pointer that stands at a place: of a variable that was constructed, or of a member of a living
-- object.
abbrev pub PlaceIs : Heap → Place → Option ℕ → Type 0
PlaceIs h (variable x) p = get_elem? h.variables x ≡ some p
PlaceIs h (member i k) p =
    (n : ℕ) × (ms : List (Option ℕ)) × (get_elem? h.objects i ≡ some (alive n ms))
    × (get_elem? ms k ≡ some p)

-- The call returns a sound heap with the given variables.
abbrev pub Returns : Outcome Heap → List (Option ℕ) → Type 0
Returns m ps = (h : Heap) × (m ≡ ok h) × IsSound h × (h.variables ≡ ps)

pub pointer_in-at :
    (ps : List (Option ℕ)) (x : ℕ) (p : Option ℕ) → get_elem? ps x ≡ some p → pointer_in ps x ≡ ok p
unfolding pointer_in
pointer_in-at ps x p at = rw (at, pointer_in) refl

pub get-PlaceIs : (h : Heap) (y : Place) (p : Option ℕ) → PlaceIs h y p → get h y ≡ ok p
unfolding get
get-PlaceIs h (variable x) p at = pointer_in-at h.variables x p at
get-PlaceIs h (member i k) p (n, ms, at, at_k) =
    rw (object_at-alive h.objects i n ms at, ◌>>=◌) (pointer_in-at ms k p at_k)

pub pointing_pos :
    (ps : List (Option ℕ)) (x i : ℕ) → get_elem? ps x ≡ some (some i) → 1 ≤ pointing i ps
pointing_pos ps x i at = omega (arith, pointing-set i ps x (some i) none at, hit_self i)

pub inner_pos :
    (objects : List Object) (j n k i : ℕ) (ms : List (Option ℕ))
    → get_elem? objects j ≡ some (alive n ms)
    → get_elem? ms k ≡ some (some i)
    → 1 ≤ inner i objects
inner_pos objects j n k i ms at at_k =
    omega (arith, inner-set i objects j (alive n ms) deleted at, pointing_pos ms k i at_k)

pub PlaceIs-Stands :
    (h : Heap) (y : Place) (p : Option ℕ)
    → PlaceIs h y p
    → Stands h.objects (λ i. pointing i h.variables) p
PlaceIs-Stands h y none at = tt
PlaceIs-Stands h (variable x) (some i) at = omega (arith, pointing_pos h.variables x i at)
PlaceIs-Stands h (member j k) (some i) (n, ms, at, at_k) =
    omega (arith, inner_pos h.objects j n k i ms at at_k)

pub room_for_one :
    (h : Heap) → HasRoom h → (i : ℕ) → pointing i h.variables + inner i h.objects < 2 ^ 64 - 1
room_for_one h room i = omega (arith, pointing-length i h.variables, inner-slots i h.objects)

-- What a pointer from outside points to was made.
pub Stands-inside :
    (objects : List Object) (f : ℕ → ℕ) (k : ℕ) → AreSound objects f → 1 ≤ f k → k < length objects
Stands-inside objects f k s pos =
    let (ms, at) = IsCounted-alive _ (f k + inner k objects) (s.counted k) (omega arith) in
    get_elem?-inside objects k _ at

pub variable-Held :
    (objects : List Object) (f : ℕ → ℕ) (ps : List (Option ℕ)) (x : ℕ) (p : Option ℕ)
    → AreSound objects f
    → ((i : ℕ) → pointing i ps ≤ f i)
    → get_elem? ps x ≡ some p
    → Held f (length objects) p
variable-Held objects f ps x none s more at = tt
variable-Held objects f ps x (some k) s more at =
    let pos : 1 ≤ f k = omega (arith, pointing_pos ps x k at, more k) in
    (pos, Stands-inside objects f k s pos)

pub release_current-Leaves :
    (policy : Policy) (objects : List Object) (ps : List (Option ℕ)) (x : ℕ) (f : ℕ → ℕ)
    (p : Option ℕ)
    → AreSound objects f
    → ((i : ℕ) → pointing i ps ≤ f i)
    → get_elem? ps x ≡ some p
    → (objects' : List Object) × (release_current policy
          (record { objects = objects; variables = ps })
          x
        ≡ ok (record { objects = objects'; variables = set ps x none }))
      × AreSound objects' (λ i. f i - hit i p)
      × Keeps objects objects'
unfolding release_current
release_current-Leaves policy objects ps x f p s more at =
    let (objects', made, s', keeps) =
      release-Leaves policy (length objects) objects f p s
        (variable-Held objects f ps x p s more at) in
    (objects', rw (pointer_in-at ps x p at, made, release_current, ◌>>=◌) refl, s', keeps)

pub release_current-Returns :
    (policy : Policy) (h : Heap) (x : ℕ)
    → IsSound h
    → x < length h.variables
    → Returns (release_current policy h x) (set h.variables x none)
release_current-Returns policy h x s inside =
    let (p, at) = get_elem?-lt h.variables x inside in
    let (objects', made, s', keeps) =
      release_current-Leaves policy h.objects h.variables x _ p s (λ i. omega arith) at in
    (
      record { objects = objects'; variables = set h.variables x none },
      made,
      AreSound-same objects' _ _ (λ i. omega (arith, pointing-set i h.variables x p none at)) s',
      refl,
    )

pub copy_construct-Returns :
    (h : Heap) (y : Place) (p : Option ℕ)
    → IsSound h
    → HasRoom h
    → PlaceIs h y p
    → Returns (copy_construct h y) (h.variables ++ p ∷ [])
unfolding copy_construct
copy_construct-Returns h y p s room at =
    let (objects', made, s', keeps) =
      retain-Leaves h.objects _ p s (room_for_one h room) (PlaceIs-Stands h y p at) in
    (
      record { objects = objects'; variables = h.variables ++ p ∷ [] },
      rw (get-PlaceIs h y p at, made, copy_construct, ◌>>=◌) refl,
      AreSound-same objects' _ _ (λ i. omega (arith, pointing-append i h.variables (p ∷ []))) s',
      refl,
    )

pub AreBelow-null :
    (bound : ℕ) (ms : List (Option ℕ)) (k : ℕ) → AreBelow bound ms → AreBelow bound (set ms k none)
AreBelow-null bound [] k b = tt
AreBelow-null bound (none ∷ ms) zero b = b
AreBelow-null bound (some i ∷ ms) zero b = b.1
AreBelow-null bound (none ∷ ms) (suc k) b = AreBelow-null bound ms k b
AreBelow-null bound (some i ∷ ms) (suc k) b = (b.0, AreBelow-null bound ms k b.1)
