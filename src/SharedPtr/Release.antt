-- ===== src/SharedPtr/Release.antt =====
-- The objects of a heap when a pointer is retained or released, with every deletion that this sets off.
use cpp_util.Util.{
  ℕ, zero, suc, ◌+◌, ◌-◌, ◌^◌, ◌≤◌, ◌<◌, ◌≡◌, ◌∙◌, refl, ap, Bool, Option, none, some, List, [],
  ◌∷◌, ◌==◌, get_elem?, set, arith, inl, inr, Bool-cases, subst,
}
use cpp_util.Container.Outcome.{Outcome, ok, ◌>>=◌}
use cpp_util.SharedPtr.{Policy, retain_count, retain, release, release_all, Object, alive, deleted}
use cpp_util.SharedPtr.Counted.{
  hit, pointing, inner, inner-set, IsCounted, counted_alive, counted_deleted, AllCounted,
  release_count-one,
}
use cpp_util.SharedPtr.Objects.{
  hit_self, IsCounted-alive, AllCounted-same, AllCounted-set, object_at-alive, AreBelow, AreOrdered,
  Keeps, AreOrdered-Keeps, Keeps-count, Keeps-deleted, Keeps-trans,
}

-- Objects whose counts are the pointers from outside, given by `f`, and those of members. Fewer than
-- 2 ^ 64 pointers point to each.
pub record AreSound (objects : List Object) (f : ℕ → ℕ) : Type 0 where
  pub counted : AllCounted objects (λ i. f i + inner i objects)
  pub small : (i : ℕ) → f i + inner i objects < 2 ^ 64
  pub ordered : AreOrdered objects

-- A pointer from outside, to an object below an index.
abbrev pub Held : (ℕ → ℕ) → ℕ → Option ℕ → Type 0
Held f bound none = Unit
Held f bound (some k) = (1 ≤ f k) × (k < bound)

-- A pointer that stands somewhere: in a variable or in a member.
abbrev pub Stands : List Object → (ℕ → ℕ) → Option ℕ → Type 0
Stands objects f none = Unit
Stands objects f (some k) = 1 ≤ f k + inner k objects

-- The call returns sound objects for other pointers from outside.
abbrev pub Leaves : List Object → Outcome (List Object) → (ℕ → ℕ) → Type 0
Leaves objects m f =
    (objects' : List Object) × (m ≡ ok objects') × AreSound objects' f × Keeps objects objects'

pub AreSound-same :
    (objects : List Object) (f g : ℕ → ℕ)
    → ((i : ℕ) → f i ≡ g i)
    → AreSound objects f
    → AreSound objects g
AreSound-same objects f g same s = record {
  counted = AllCounted-same objects _ _ (λ i. omega (arith, same i)) s.counted;
  small = λ i. omega (arith, same i, s.small i);
  ordered = s.ordered;
}

pub retain-Leaves :
    (objects : List Object) (f : ℕ → ℕ) (p : Option ℕ)
    → AreSound objects f
    → ((i : ℕ) → f i + inner i objects < 2 ^ 64 - 1)
    → Stands objects f p
    → Leaves objects (retain objects p) (λ i. f i + hit i p)
unfolding retain retain_count
retain-Leaves objects f none s room stands =
    (objects, refl, AreSound-same objects f _ (λ i. omega arith) s, λ k n ms at. (n, at))
retain-Leaves objects f (some k) s room pos =
    let n = f k + inner k objects in
    let (ms, at) = IsCounted-alive _ n (s.counted k) (omega arith) in
    let up : retain_count n ≡ n + 1 = omega (arith, room k) in
    let self = hit_self k in
    let same : (i : ℕ) → inner i (set objects k (alive (n + 1) ms)) ≡ inner i objects =
      λ i. omega (arith, inner-set i objects k (alive n ms) (alive (n + 1) ms) at) in
    (
      set objects k (alive (n + 1) ms),
      rw (object_at-alive objects k n ms at, up, retain, ◌>>=◌) refl,
      record {
        counted =
            AllCounted-set objects (λ i. f i + inner i objects) _ k (alive (n + 1) ms) (alive n ms)
              at s.counted
              (subst (λ c. IsCounted (some (alive (n + 1) ms)) c) (omega (arith, same k, self))
                (counted_alive (omega arith)))
              (λ i other. rw (same i, other) (omega arith));
        small = λ i. ground (arith, room i, same i);
        ordered = AreOrdered-Keeps objects _ (Keeps-count objects k n (n + 1) ms at) s.ordered;
      },
      Keeps-count objects k n (n + 1) ms at,
    )

-- Every call of a function that drops one pointer from outside to an object below `bound`.
abbrev Drops : (List Object → Option ℕ → Outcome (List Object)) → ℕ → Type 0
Drops drop_pointer bound =
    (objects : List Object) (f : ℕ → ℕ) (p : Option ℕ)
    → AreSound objects f
    → Held f bound p
    → Leaves objects (drop_pointer objects p) (λ i. f i - hit i p)

-- Members that are dropped one after the other.
release_all-Leaves :
    (drop_pointer : List Object → Option ℕ → Outcome (List Object)) (bound : ℕ)
    → Drops drop_pointer bound
    → (objects : List Object) (f : ℕ → ℕ) (ms : List (Option ℕ)) → AreSound objects f
    → AreBelow bound ms
    → ((i : ℕ) → pointing i ms ≤ f i)
    → Leaves objects (release_all drop_pointer objects ms) (λ i. f i - pointing i ms)
unfolding release_all
release_all-Leaves drop_pointer bound drops objects f [] s below held =
    (objects, refl, AreSound-same objects f _ (λ i. omega arith) s, λ k n ms at. (n, at))
release_all-Leaves drop_pointer bound drops objects f (none ∷ ms) s below held =
    let (objects1, made1, s1, keeps1) =
      release_all-Leaves drop_pointer bound drops objects f ms s below
        (λ i. omega (arith, held i)) in
    let (objects2, made2, s2, keeps2) = drops objects1 _ none s1 tt in
    (
      objects2,
      rw (made1, ◌>>=◌) made2,
      AreSound-same objects2 _ _ (λ i. omega arith) s2,
      Keeps-trans objects objects1 objects2 keeps1 keeps2,
    )
release_all-Leaves drop_pointer bound drops objects f (some k ∷ ms) s below held =
    let (objects1, made1, s1, keeps1) =
      release_all-Leaves drop_pointer bound drops objects f ms s below.1
        (λ i. omega (arith, held i)) in
    let (objects2, made2, s2, keeps2) =
      drops objects1 _ (some k) s1 (omega (arith, held k, hit_self k), below.0) in
    (
      objects2,
      rw (made1, ◌>>=◌) made2,
      AreSound-same objects2 _ _ (λ i. omega arith) s2,
      Keeps-trans objects objects1 objects2 keeps1 keeps2,
    )

AreBelow-le : (k bound : ℕ) (ms : List (Option ℕ)) → k ≤ bound → AreBelow k ms → AreBelow bound ms
AreBelow-le k bound [] h b = tt
AreBelow-le k bound (none ∷ ms) h b = AreBelow-le k bound ms h b
AreBelow-le k bound (some i ∷ ms) h b = (omega arith, AreBelow-le k bound ms h b.1)

-- The heap once the destruction of an object has begun: its members are pointers from outside.
deleted-AreSound :
    (objects : List Object) (f : ℕ → ℕ) (k : ℕ) (ms : List (Option ℕ))
    → AreSound objects f
    → get_elem? objects k ≡ some (alive 1 ms)
    → f k ≡ 1
    → inner k objects ≡ 0
    → AreSound (set objects k deleted) (λ i. f i - hit i (some k) + pointing i ms)
deleted-AreSound objects f k ms s at one none_inner =
    let change : (i : ℕ) → inner i (set objects k deleted) + pointing i ms ≡ inner i objects =
      λ i. omega (arith, inner-set i objects k (alive 1 ms) deleted at) in
    let self = hit_self k in
    let gone : 0 ≡ f k - hit k (some k) + pointing k ms + inner k (set objects k deleted) =
      rw self (omega (arith, change k)) in
    record {
      counted =
          AllCounted-set objects (λ i. f i + inner i objects) _ k deleted (alive 1 ms) at s.counted
            (subst (λ c. IsCounted (some deleted) c) gone counted_deleted)
            (λ i other. rw other (omega (arith, change i)));
      small = λ i. omega (arith, s.small i, change i);
      ordered = AreOrdered-Keeps objects _ (Keeps-deleted objects k 1 ms at) s.ordered;
    }

pub release-Leaves : (policy : Policy) (fuel : ℕ) → Drops (release policy fuel) fuel
unfolding release
release-Leaves policy zero objects f none s held =
    (objects, refl, AreSound-same objects f _ (λ i. omega arith) s, λ k n ms at. (n, at))
release-Leaves policy zero objects f (some k) s held = absurd (omega arith)
release-Leaves policy (suc fuel) objects f none s held =
    (objects, refl, AreSound-same objects f _ (λ i. omega arith) s, λ k n ms at. (n, at))
release-Leaves policy (suc fuel) objects f (some k) s (pos, inside) =
    let n = f k + inner k objects in
    let (ms, at) = IsCounted-alive _ n (s.counted k) (omega arith) in
    let down = release_count-one policy n (omega arith) (s.small k) in
    let self = hit_self k in
    elim (Bool-cases (n == 1)) [
      | inl last ↦
          let one : n ≡ 1 = ground arith in
          let at_one : get_elem? objects k ≡ some (alive 1 ms) =
            at ∙ ap (λ c. some (alive c ms)) one in
          let s1 = deleted-AreSound objects f k ms s at_one (omega arith) (omega arith) in
          let (objects2, made, s2, keeps) =
            release_all-Leaves (release policy fuel) fuel (release-Leaves policy fuel)
              (set objects k deleted) _ ms s1
              (AreBelow-le k fuel ms (omega arith) (s.ordered k n ms at)) (λ i. omega arith) in
          (
            objects2,
            rw (object_at-alive objects k n ms at, down, last, release, ◌>>=◌) made,
            AreSound-same objects2 _ _ (λ i. omega arith) s2,
            Keeps-trans objects (set objects k deleted) objects2 (Keeps-deleted objects k n ms at)
                keeps,
          )
      | inr more ↦
          let several : 2 ≤ n = ground arith in
          let same : (i : ℕ) → inner i (set objects k (alive (n - 1) ms)) ≡ inner i objects =
            λ i. omega (arith, inner-set i objects k (alive n ms) (alive (n - 1) ms) at) in
          (
            set objects k (alive (n - 1) ms),
            rw (object_at-alive objects k n ms at, down, more, release, ◌>>=◌)
                (ap (λ (r : ℕ × Bool). ok (set objects k (alive r.0 ms))) down),
            record {
              counted =
                  AllCounted-set objects (λ i. f i + inner i objects) _ k (alive (n - 1) ms)
                    (alive n ms) at s.counted
                    (subst (λ c. IsCounted (some (alive (n - 1) ms)) c)
                      (omega (arith, same k, self)) (counted_alive (omega arith)))
                    (λ i other. rw (same i, other) (omega arith));
              small = λ i. omega (arith, s.small i, same i);
              ordered =
                  AreOrdered-Keeps objects _ (Keeps-count objects k n (n - 1) ms at) s.ordered;
            },
            Keeps-count objects k n (n - 1) ms at,
          )
    ]
