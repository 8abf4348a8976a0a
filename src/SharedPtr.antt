-- ===== src/SharedPtr.antt =====
-- immutable_container/include/immutable_container/shared_ptr.h and ref_count_policy.h. A heap holds the
-- objects that were adopted, each with its count and the SharedPtrs that are its members while it
-- lives, and the SharedPtrs that are variables, in the order in which they were constructed. Members
-- are made from variables when their object is made, as those of `ImmutableTree::Node` are, and are
-- copied and moved from, but not assigned to. A destroyed variable stays in its place as a null one.
pub mod Counted
pub mod Objects
pub mod Release
pub mod Values
pub mod Sound
pub mod Assign
pub mod Run
mod Examples
use cpp_util.Util.{
  ℕ, zero, suc, ◌+◌, ◌-◌, ◌%◌, ◌^◌, Bool, true, false, Option, none, some, List, [], ◌∷◌, ◌++◌,
  ◌==◌, if◌then◌else◌, get_elem?, length, set,
}
use cpp_util.Container.Outcome.{Outcome, ok, throw, Error, ◌>>=◌}

-- `NonAtomicRefCount`, `AtomicRefCount`.
pub data Policy : Type 0 where
  non_atomic atomic : Policy

-- `Retain` and `Release` of a counter, which is a `std::size_t`.
unfoldable pub retain_count : ℕ → ℕ
retain_count n = (n + 1) % 2 ^ 64

-- The new count, and what `Release` returns: the one policy tests the new count, the other the old.
unfoldable pub release_count : Policy → ℕ → ℕ × Bool
release_count non_atomic n = let n' = (n + (2 ^ 64 - 1)) % 2 ^ 64 in (n', n' == 0)
release_count atomic n = ((n + (2 ^ 64 - 1)) % 2 ^ 64, n == 1)

-- An object: its count and its members, in the order of their declaration. A pointer is the index of
-- its object, or null. From the begin of its destruction on an object is `deleted`.
pub data Object : Type 0 where
  alive : ℕ → List (Option ℕ) → Object
  deleted : Object

pub record Heap : Type 0 where
  pub objects : List Object
  pub variables : List (Option ℕ)

abbrev pub start : Heap
start = record { objects = []; variables = [] }

-- Where a SharedPtr stands: a variable, or a member of an object.
pub data Place : Type 0 where
  variable : ℕ → Place
  member : ℕ → ℕ → Place

-- The count and the members behind a pointer.
unfoldable pub object_at : List Object → ℕ → Outcome (ℕ × List (Option ℕ))
object_at objects i = elim (get_elem? objects i) [
  | none ↦ throw Error.out_of_range
  | some object ↦ elim object [ alive n ms ↦ ok (n, ms) | deleted ↦ throw Error.dangling ]
]

-- `SharedPtr::Retain`.
unfoldable pub retain : List Object → Option ℕ → Outcome (List Object)
retain objects none = ok objects
retain objects (some i) =
    object_at objects i >>= λ o. ok (set objects i (alive (retain_count o.0) o.1))

-- The destructors of members, the last one first.
unfoldable pub release_all :
    (List Object → Option ℕ → Outcome (List Object))
    → List Object
    → List (Option ℕ)
    → Outcome (List Object)
release_all drop_pointer objects [] = ok objects
release_all drop_pointer objects (m ∷ ms) =
    release_all drop_pointer objects ms >>= λ objects'. drop_pointer objects' m

-- `Release`, and `delete` where it returns true: the members of the object are destroyed at once. The
-- fuel bounds the depth of the deletions.
unfoldable pub release : Policy → ℕ → List Object → Option ℕ → Outcome (List Object)
release policy zero objects none = ok objects
release policy zero objects (some i) = throw Error.no_fuel
release policy (suc fuel) objects none = ok objects
release policy (suc fuel) objects (some i) = object_at objects i >>= λ o.
    elim (release_count policy o.0).1 [
      | false ↦ ok (set objects i (alive (release_count policy o.0).0 o.1))
      | true ↦ release_all (release policy fuel) (set objects i deleted) o.1
    ]

-- The `ptr_` of a SharedPtr.
unfoldable pub pointer_in : List (Option ℕ) → ℕ → Outcome (Option ℕ)
pointer_in ps x = elim (get_elem? ps x) [ none ↦ throw Error.out_of_range | some p ↦ ok p ]

unfoldable pub get : Heap → Place → Outcome (Option ℕ)
get h (variable x) = pointer_in h.variables x
get h (member i k) = object_at h.objects i >>= λ o. pointer_in o.1 k

-- `other.ptr_ = nullptr`.
unfoldable pub set_null : Heap → Place → Outcome Heap
set_null h (variable x) = ok (record h { variables = set h.variables x none })
set_null h (member i k) = object_at h.objects i >>= λ o.
    ok (record h { objects = set h.objects i (alive o.0 (set o.1 k none)) })

-- `ReleaseCurrent` of a variable, with fuel for every object.
unfoldable pub release_current : Policy → Heap → ℕ → Outcome Heap
release_current policy h x = pointer_in h.variables x >>= λ p.
    release policy (length h.objects) h.objects p >>= λ objects.
    ok (record { objects = objects; variables = set h.variables x none })

-- Variables that are moved into the members of a new object.
unfoldable pub move_all : List (Option ℕ) → List ℕ → Outcome (List (Option ℕ) × List (Option ℕ))
move_all variables [] = ok (variables, [])
move_all variables (x ∷ xs) = pointer_in variables x >>= λ p.
    move_all (set variables x none) xs >>= λ moved. ok (moved.0, p ∷ moved.1)

-- `Adopt` of a new object, whose counter starts at one.
unfoldable pub adopt : Heap → List ℕ → Outcome Heap
adopt h xs = move_all h.variables xs >>= λ moved. ok (record {
  objects = h.objects ++ alive 1 moved.1 ∷ [];
  variables = moved.0 ++ some (length h.objects) ∷ [];
})

-- The constructors from another SharedPtr.
unfoldable pub copy_construct : Heap → Place → Outcome Heap
copy_construct h y = get h y >>= λ p. retain h.objects p >>= λ objects.
    ok (record { objects = objects; variables = h.variables ++ p ∷ [] })

unfoldable pub move_construct : Heap → Place → Outcome Heap
move_construct h y =
    get h y >>= λ p. set_null h y >>= λ h'. ok (record h' { variables = h'.variables ++ p ∷ [] })

-- `this == &other`.
unfoldable pub is_same : ℕ → Place → Bool
is_same x (variable y) = x == y
is_same x (member i k) = false

-- The assignments of `y` to a variable. `y` is read after the old object has been released, which may
-- have deleted the object of which `y` is a member.
unfoldable pub copy_assign : Policy → Heap → ℕ → Place → Outcome Heap
copy_assign policy h x y = elim (is_same x y) [
  | true ↦ ok h
  | false ↦ get h y >>= λ p. retain h.objects p >>= λ objects.
      release_current policy (record h { objects = objects }) x >>= λ h'.
      get h' y >>= λ p'. ok (record h' { variables = set h'.variables x p' })
]

unfoldable pub move_assign : Policy → Heap → ℕ → Place → Outcome Heap
move_assign policy h x y = elim (is_same x y) [
  | true ↦ ok h
  | false ↦ release_current policy h x >>= λ h'.
      get h' y >>= λ p. set_null (record h' { variables = set h'.variables x p }) y
]

-- What a program does with its pointers. The null pointer is assigned and a variable is destroyed by
-- `ReleaseCurrent` alone.
pub data Op : Type 0 where
  new_null : Op
  adopt_new : List ℕ → Op
  copy_new move_new : Place → Op
  destroy assign_null : ℕ → Op
  copy_to move_to : ℕ → Place → Op

unfoldable pub step : Policy → Heap → Op → Outcome Heap
step policy h new_null = ok (record h { variables = h.variables ++ none ∷ [] })
step policy h (adopt_new xs) = adopt h xs
step policy h (copy_new y) = copy_construct h y
step policy h (move_new y) = move_construct h y
step policy h (destroy x) = release_current policy h x
step policy h (assign_null x) = release_current policy h x
step policy h (copy_to x y) = copy_assign policy h x y
step policy h (move_to x y) = move_assign policy h x y

unfoldable pub run : Policy → Heap → List Op → Outcome Heap
run policy h [] = ok h
run policy h (op ∷ ops) = step policy h op >>= λ h'. run policy h' ops
