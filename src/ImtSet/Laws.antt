-- ===== src/ImtSet/Laws.antt =====
-- A set as a Boolean function of keys: what each call does to it.
use cpp_util.Util.{
  ◌<◌, ◌≡◌, refl, List, Option, none, some, true, false, sym, ◌∙◌, ap, Bool, ◌||◌, Bool-cases, inl,
  inr, if◌then◌else◌, is_some,
}
use cpp_util.Container.Comparator.{Comparator, Equiv}
use cpp_util.Container.Outcome.{Outcome, ok, ◌>>=◌}
use cpp_util.Container.Assoc
use cpp_util.Container.Assoc.Laws.{find-Equiv}
use cpp_util.Container.Assoc.Find.{
  equiv, Reads, IfAbsent, IfPresent, insert_lem as insert_reads, erase_lem as erase_reads,
}
use cpp_util.Container.Store.{Store, Refines, u32_max}
use cpp_util.ImtSet.{UnitValue, unit_value, ImtSet, size, contains, insert, erase, add, wrap}

if-or : (a b : Bool) → (if a then true else b) ≡ (a || b)
if-or true b = refl
if-or false b = refl

module _ {ℓ} {K : Type ℓ} ⦃c : Comparator K⦄ (S : Store K (UnitValue {ℓ})) where
  abbrev pub IsValid : ImtSet S → Type ℓ
  IsValid s = S.IsValid s.tree

  contains_view :
      (s : ImtSet S) (q : K) → IsValid s → contains S s q ≡ is_some (Assoc.find q (S.view s.tree))
  unfolding contains
  contains_view s q valid = S.contains_find s.tree q ∙ ap is_some (S.find_view s.tree q valid)

  contains-Equiv :
      (s : ImtSet S) (p k : K) → IsValid s → Equiv p k → contains S s p ≡ contains S s k
  contains-Equiv s p k valid e =
      contains_view s p valid
      ∙ ap is_some (find-Equiv p k (S.view s.tree) e)
      ∙ sym (contains_view s k valid)

  -- The set `s'` holds keys equivalent to `k` as `b` says, and all others as `s` does.
  pub record IsUpdate (k : K) (b : Bool) (s s' : ImtSet S) : Type ℓ where
    pub valid : IsValid s'
    pub holds : (p : K) → contains S s' p ≡ (if equiv p k then b else contains S s p)

  pub data Inserted (k : K) (s : ImtSet S) : Outcome (Option (ImtSet S)) → Type ℓ where
    refused : contains S s k ≡ true → Inserted k s (ok none)
    inserted :
        {s' : ImtSet S}
        → contains S s k ≡ false
        → IsUpdate k true s s'
        → Inserted k s (ok (some s'))

  pub data Erased (k : K) (s : ImtSet S) : Outcome (Option (ImtSet S)) → Type ℓ where
    refused : contains S s k ≡ false → Erased k s (ok none)
    erased :
        {s' : ImtSet S} → contains S s k ≡ true → IsUpdate k false s s' → Erased k s (ok (some s'))

  is_some-if :
      (b : Bool) (x y : Option (UnitValue {ℓ}))
      → is_some (if b then x else y) ≡ (if b then is_some x else is_some y)
  is_some-if true x y = refl
  is_some-if false x y = refl

  view-IsUpdate :
      (k : K) (o : Option (UnitValue {ℓ})) (s : ImtSet S) (t : S.T) (es : List (K × UnitValue {ℓ}))
      → IsValid s
      → S.IsValid t
      → S.view t ≡ es
      → Reads k o (S.view s.tree) es
      → IsUpdate k (is_some o) s (record { tree = t })
  view-IsUpdate k o s t es valid valid' same r = record {
    valid = valid';
    holds = λ p.
        contains_view (record { tree = t }) p valid'
        ∙ ap (λ (l : List (K × UnitValue {ℓ})). is_some (Assoc.find p l)) same
        ∙ ap is_some (r.reads p)
        ∙ is_some-if (equiv p k) o _
        ∙ ap (λ (b : Bool). if equiv p k then is_some o else b) (sym (contains_view s p valid));
  }

  insert_case :
      (k : K) (s : ImtSet S) {r : Outcome (Option S.T)} {o : Option (List (K × UnitValue {ℓ}))}
      → IsValid s
      → Refines S.IsValid S.view r o
      → IfAbsent k unit_value (S.view s.tree) o
      → Inserted k s (wrap S r)
  insert_case k s valid Refines.refused (IfAbsent.refused e) =
      Inserted.refused (contains_view s k valid ∙ ap is_some e)
  insert_case k s valid (Refines.returned {t = t} valid' same) (IfAbsent.added e r) =
      inserted (contains_view s k valid ∙ ap is_some e)
        (view-IsUpdate k (some unit_value) s t _ valid valid' same r)

  -- On a valid set of fewer than 2 ^ 32 - 1 keys `Insert` refuses only where the set contains the
  -- key; else it did not, and the new set is valid, contains the equivalent keys, and contains
  -- any other key as the old set did.
  pub insert-holds :
      (s : ImtSet S) (k : K) → IsValid s → size S s < u32_max → Inserted k s (insert S s k)
  unfolding insert size
  insert-holds s k valid room =
      insert_case k s valid (S.insert_view s.tree k unit_value valid room)
        (insert_reads k unit_value (S.view s.tree) (S.valid_sorted s.tree valid))

  erase_case :
      (k : K) (s : ImtSet S) {r : Outcome (Option S.T)} {o : Option (List (K × UnitValue {ℓ}))}
      → IsValid s
      → Refines S.IsValid S.view r o
      → IfPresent k none (S.view s.tree) o
      → Erased k s (wrap S r)
  erase_case k s valid Refines.refused (IfPresent.refused e) =
      Erased.refused (contains_view s k valid ∙ ap is_some e)
  erase_case k s valid (Refines.returned {t = t} valid' same) (IfPresent.changed e r) =
      erased (contains_view s k valid ∙ ap is_some e)
        (view-IsUpdate k none s t _ valid valid' same r)

  -- On a valid set `Erase` refuses only where the set lacks the key; else it contained it, and
  -- the new set is valid, lacks the equivalent keys, and contains any other key as the old set
  -- did.
  pub erase-holds : (s : ImtSet S) (k : K) → IsValid s → Erased k s (erase S s k)
  unfolding erase
  erase-holds s k valid =
      erase_case k s valid (S.erase_view s.tree k valid)
        (erase_reads k (S.view s.tree) (S.valid_sorted s.tree valid))

  abbrev Added : K → ImtSet S → Outcome (ImtSet S) → Type ℓ
  Added k s m =
      (s' : ImtSet S) × (m ≡ ok s')
      × IsValid s'
      × ((p : K) → contains S s' p ≡ (equiv p k || contains S s p))

  add_case :
      (k : K) (s : ImtSet S) {r : Outcome (Option (ImtSet S))}
      → IsValid s
      → Inserted k s r
      → Added k s (r >>= λ inserted. elim inserted [ none ↦ ok s | some s' ↦ ok s' ])
  add_case k s valid (Inserted.refused e) = (s, refl, valid, λ p. held_already p)
    where
      held_already : (p : K) → contains S s p ≡ (equiv p k || contains S s p)
      held_already p = elim (Bool-cases (c.less p k)) [
        | inl a ↦ rw a refl
        | inr a ↦ elim (Bool-cases (c.less k p)) [
          | inl b ↦ rw (a, b) refl
          | inr b ↦ rw (a, b) (contains-Equiv s p k valid (a, b) ∙ e)
        ]
      ]
  add_case k s valid (Inserted.inserted {s' = s'} e u) =
      (s', refl, u.valid, λ p. u.holds p ∙ if-or (equiv p k) (contains S s p))

  -- On a valid set of fewer than 2 ^ 32 - 1 keys `Add` returns a valid set, and that contains
  -- exactly the keys equivalent to the given one and those that the old set contained.
  pub add-holds : (s : ImtSet S) (k : K) → IsValid s → size S s < u32_max → Added k s (add S s k)
  unfolding add
  add-holds s k valid room = add_case k s valid (insert-holds s k valid room)
