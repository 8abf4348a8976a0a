-- ===== src/SharedPtr/Counted.antt =====
-- How many pointers point to an object, among variables and among members.
use mathlib.Core.Option.{some-injective}
use cpp_util.Util.{
  ℕ, zero, suc, ◌+◌, ◌-◌, ◌%◌, ◌^◌, ◌≤◌, ◌<◌, ◌≡◌, refl, Option, none, some, List, [], ◌∷◌, ◌++◌,
  ◌==◌, if◌then◌else◌, get_elem?, length, set, arith,
}
use cpp_util.SharedPtr.{Policy, non_atomic, atomic, release_count, Object, alive, deleted}

abbrev pub hit : ℕ → Option ℕ → ℕ
hit i none = 0
hit i (some k) = if i == k then 1 else 0

-- How many of the pointers point to the object.
abbrev pub pointing : ℕ → List (Option ℕ) → ℕ
pointing i [] = 0
pointing i (p ∷ ps) = hit i p + pointing i ps

pub pointing-append :
    (i : ℕ) (ps qs : List (Option ℕ)) → pointing i (ps ++ qs) ≡ pointing i ps + pointing i qs
pointing-append i [] qs = omega arith
pointing-append i (p ∷ ps) qs = omega (arith, pointing-append i ps qs)

pub pointing-set :
    (i : ℕ) (ps : List (Option ℕ)) (x : ℕ) (p q : Option ℕ)
    → get_elem? ps x ≡ some p
    → pointing i (set ps x q) + hit i p ≡ pointing i ps + hit i q
pointing-set i [] x p q at = absurd (cc at)
pointing-set i (p0 ∷ ps) zero p q at = rw (some-injective p0 p at) (omega arith)
pointing-set i (p0 ∷ ps) (suc x) p q at = omega (arith, pointing-set i ps x p q at)

pub pointing-length : (i : ℕ) (ps : List (Option ℕ)) → pointing i ps ≤ length ps
pointing-length i [] = omega arith
pointing-length i (none ∷ ps) = omega (arith, pointing-length i ps)
pointing-length i (some k ∷ ps) = ground (arith, pointing-length i ps)

-- What is stored is read, and no other place changes.
pub get_elem?-set :
    {A : Type 0} (xs : List A) (k : ℕ) (v : A) (i : ℕ) (old : A)
    → get_elem? xs k ≡ some old
    → get_elem? (set xs k v) i ≡ (if i == k then some v else get_elem? xs i)
get_elem?-set [] k v i old at = absurd (cc at)
get_elem?-set (x ∷ xs) zero v zero old at = refl
get_elem?-set (x ∷ xs) zero v (suc i) old at = ground arith
get_elem?-set (x ∷ xs) (suc k) v zero old at = ground arith
get_elem?-set (x ∷ xs) (suc k) v (suc i) old at = ground (arith, get_elem?-set xs k v i old at)

-- How many members of living objects point to an object, and how many members there are.
abbrev pub members_of : Object → List (Option ℕ)
members_of (alive n ms) = ms
members_of deleted = []

abbrev pub inner : ℕ → List Object → ℕ
inner i [] = 0
inner i (o ∷ os) = pointing i (members_of o) + inner i os

abbrev pub slots : List Object → ℕ
slots [] = 0
slots (o ∷ os) = length (members_of o) + slots os

pub inner-append :
    (i : ℕ) (os more : List Object) → inner i (os ++ more) ≡ inner i os + inner i more
inner-append i [] more = omega arith
inner-append i (o ∷ os) more = omega (arith, inner-append i os more)

pub inner-set :
    (i : ℕ) (os : List Object) (k : ℕ) (o o' : Object)
    → get_elem? os k ≡ some o
    → inner i (set os k o') + pointing i (members_of o) ≡ inner i os + pointing i (members_of o')
inner-set i [] k o o' at = absurd (cc at)
inner-set i (x ∷ os) zero o o' at = rw (some-injective x o at) (omega arith)
inner-set i (x ∷ os) (suc k) o o' at = omega (arith, inner-set i os k o o' at)

pub inner-slots : (i : ℕ) (os : List Object) → inner i os ≤ slots os
inner-slots i [] = omega arith
inner-slots i (o ∷ os) = omega (arith, inner-slots i os, pointing-length i (members_of o))

pub get_elem?-inside :
    {A : Type 0} (xs : List A) (k : ℕ) (x : A) → get_elem? xs k ≡ some x → k < length xs
get_elem?-inside [] k x at = absurd (cc at)
get_elem?-inside (y ∷ xs) zero x at = omega arith
get_elem?-inside (y ∷ xs) (suc k) x at = omega (arith, get_elem?-inside xs k x at)

-- An object that is pointed to lives, and its count is the number of its pointers. One that no
-- pointer points to was deleted, or never made.
pub data IsCounted : Option Object → ℕ → Type 0 where
  counted_alive : {n : ℕ} {ms : List (Option ℕ)} → 1 ≤ n → IsCounted (some (alive n ms)) n
  counted_deleted : IsCounted (some deleted) 0
  not_made : IsCounted none 0

abbrev pub AllCounted : List Object → (ℕ → ℕ) → Type 0
AllCounted objects f = (i : ℕ) → IsCounted (get_elem? objects i) (f i)

-- Both policies count down by one, and tell whether the count was one.
pub release_count-one :
    (policy : Policy) (n : ℕ) → 1 ≤ n → n < 2 ^ 64 → release_count policy n ≡ (n - 1, n == 1)
unfolding release_count
release_count-one non_atomic n pos small =
    let down : (n + (2 ^ 64 - 1)) % 2 ^ 64 ≡ n - 1 = omega arith in
    let same : ((n - 1) == 0) ≡ (n == 1) = ground arith in rw (down, same) refl
release_count-one atomic n pos small =
    let down : (n + (2 ^ 64 - 1)) % 2 ^ 64 ≡ n - 1 = omega arith in rw down refl
