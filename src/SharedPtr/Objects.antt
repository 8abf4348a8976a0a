-- ===== src/SharedPtr/Objects.antt =====
-- The objects of a heap: their counts, and a change of one of them.
use cpp_util.Util.{
  ℕ, zero, suc, ◌≤◌, ◌<◌, ◌≡◌, ◌∙◌, sym, refl, ap, false, Option, none, some, List, [], ◌∷◌, ◌==◌,
  get_elem?, set, arith, inl, inr, Bool-cases, subst,
}
use mathlib.Core.Option.{some-injective}
use cpp_util.Container.Outcome.{ok}
use cpp_util.SharedPtr.{object_at, Object, alive, deleted}
use cpp_util.SharedPtr.Counted.{
  hit, members_of, get_elem?-set, IsCounted, counted_alive, counted_deleted, not_made, AllCounted,
}

pub hit_self : (k : ℕ) → hit k (some k) ≡ 1
hit_self k = ground arith

pub IsCounted-alive :
    (o : Option Object) (n : ℕ)
    → IsCounted o n
    → 1 ≤ n
    → (ms : List (Option ℕ)) × (o ≡ some (alive n ms))
IsCounted-alive o n (counted_alive {ms = ms} pos) h = (ms, refl)
IsCounted-alive o n counted_deleted h = absurd (omega arith)
IsCounted-alive o n not_made h = absurd (omega arith)

pub AllCounted-same :
    (objects : List Object) (f g : ℕ → ℕ)
    → ((i : ℕ) → f i ≡ g i)
    → AllCounted objects f
    → AllCounted objects g
AllCounted-same objects f g same counted i =
    subst (λ n. IsCounted (get_elem? objects i) n) (same i) (counted i)

-- A change of one object.
pub AllCounted-set :
    (objects : List Object) (f g : ℕ → ℕ) (k : ℕ) (object old : Object)
    → get_elem? objects k ≡ some old
    → AllCounted objects f
    → IsCounted (some object) (g k)
    → ((i : ℕ) → (i == k) ≡ false → g i ≡ f i)
    → AllCounted (set objects k object) g
AllCounted-set objects f g k object old at counted here else_same i = elim (Bool-cases (i == k)) [
  | inl e ↦
      let i_is_k : i ≡ k = ground arith in
      rw (get_elem?-set objects k object i old at, e)
        (subst (λ j. IsCounted (some object) (g j)) (sym i_is_k) here)
  | inr e ↦ rw (get_elem?-set objects k object i old at, e, else_same i e) (counted i)
]

pub object_at-alive :
    (objects : List Object) (k n : ℕ) (ms : List (Option ℕ))
    → get_elem? objects k ≡ some (alive n ms)
    → object_at objects k ≡ ok (n, ms)
unfolding object_at
object_at-alive objects k n ms at = rw (at, object_at) refl

-- Members point to objects that were made before theirs.
abbrev pub AreBelow : ℕ → List (Option ℕ) → Type 0
AreBelow k [] = Unit
AreBelow k (none ∷ ms) = AreBelow k ms
AreBelow k (some i ∷ ms) = (i < k) × AreBelow k ms

abbrev pub AreOrdered : List Object → Type 0
AreOrdered objects =
    (k n : ℕ) (ms : List (Option ℕ)) → get_elem? objects k ≡ some (alive n ms) → AreBelow k ms

-- Objects that live had the same members before.
abbrev pub Keeps : List Object → List Object → Type 0
Keeps objects objects' =
    (k n : ℕ) (ms : List (Option ℕ))
    → get_elem? objects' k ≡ some (alive n ms)
    → (n0 : ℕ) × (get_elem? objects k ≡ some (alive n0 ms))

pub AreOrdered-Keeps :
    (objects objects' : List Object)
    → Keeps objects objects'
    → AreOrdered objects
    → AreOrdered objects'
AreOrdered-Keeps objects objects' keeps ordered k n ms at =
    let (n0, at0) = keeps k n ms at in ordered k n0 ms at0

-- A change of one object that keeps its members, or deletes it.
pub Keeps-set :
    (objects : List Object) (k : ℕ) (o o' : Object)
    → get_elem? objects k ≡ some o
    → ((m : ℕ) (us : List (Option ℕ)) → o' ≡ alive m us → (n0 : ℕ) × (o ≡ alive n0 us))
    → Keeps objects (set objects k o')
Keeps-set [] k o o' at h j m us here = absurd (cc at)
Keeps-set (x ∷ os) zero o o' at h zero m us here =
    let (n0, same) = h m us (some-injective o' (alive m us) here) in (n0, at ∙ ap some same)
Keeps-set (x ∷ os) zero o o' at h (suc j) m us here = (m, here)
Keeps-set (x ∷ os) (suc k) o o' at h zero m us here = (m, here)
Keeps-set (x ∷ os) (suc k) o o' at h (suc j) m us here = Keeps-set os k o o' at h j m us here

pub Keeps-count :
    (objects : List Object) (k n n' : ℕ) (ms : List (Option ℕ))
    → get_elem? objects k ≡ some (alive n ms)
    → Keeps objects (set objects k (alive n' ms))
Keeps-count objects k n n' ms at =
    Keeps-set objects k (alive n ms) (alive n' ms) at
      (λ m us e. (n, ap (λ o. alive n (members_of o)) e))

pub Keeps-deleted :
    (objects : List Object) (k n : ℕ) (ms : List (Option ℕ))
    → get_elem? objects k ≡ some (alive n ms)
    → Keeps objects (set objects k deleted)
Keeps-deleted objects k n ms at =
    Keeps-set objects k (alive n ms) deleted at (λ m us e. absurd (cc e))

pub Keeps-trans : (a b d : List Object) → Keeps a b → Keeps b d → Keeps a d
Keeps-trans a b d p q k n ms at = let (n1, at1) = q k n ms at in p k n1 ms at1
