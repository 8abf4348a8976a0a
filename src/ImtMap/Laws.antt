-- ===== src/ImtMap/Laws.antt =====
-- A map as a function from keys to optional values: what each call does to it. The laws of the tree
-- are those of the interface, so they serve every tree that a map is put over.
use cpp_util.Util.{
  ◌+◌, ◌<◌, ◌≡◌, refl, List, Option, none, some, arith, ◌∙◌, ap, if◌then◌else◌, length,
}
use cpp_util.Container.Comparator.{Comparator}
use cpp_util.Container.Outcome.{Outcome, ok}
use cpp_util.Container.Assoc.Find.{
  equiv, held, Reads, IfAbsent, IfPresent, insert_lem as insert_reads, update_lem as update_reads,
  erase_lem as erase_reads, set-Reads,
}
use cpp_util.Container.Store.{Store, Refines, u32_max}
use cpp_util.ImtMap.{ImtMap, size, find, insert, update, erase, set, wrap}

module _ {ℓ} {K V : Type ℓ} ⦃c : Comparator K⦄ (S : Store K V) where
  abbrev pub IsValid : ImtMap S → Type ℓ
  IsValid m = S.IsValid m.tree

  -- The map `m'` reads `o` at keys equivalent to `k`, and as `m` at all others.
  pub record IsUpdate (k : K) (o : Option V) (m m' : ImtMap S) : Type ℓ where
    pub valid : IsValid m'
    pub reads : (p : K) → find S m' p ≡ (if equiv p k then o else find S m p)
    pub counted : size S m' + held (find S m k) ≡ size S m + held o

  -- How a call of `Insert` ends.
  pub data Inserted (k : K) (v : V) (m : ImtMap S) : Outcome (Option (ImtMap S)) → Type ℓ where
    refused : {w : V} → find S m k ≡ some w → Inserted k v m (ok none)
    inserted :
        {m' : ImtMap S}
        → find S m k ≡ none
        → IsUpdate k (some v) m m'
        → Inserted k v m (ok (some m'))

  -- How a call of `Update` or `Erase` ends.
  pub data Changed (k : K) (o : Option V) (m : ImtMap S)
      : Outcome (Option (ImtMap S)) → Type ℓ where
    refused : find S m k ≡ none → Changed k o m (ok none)
    changed :
        {w : V} {m' : ImtMap S}
        → find S m k ≡ some w
        → IsUpdate k o m m'
        → Changed k o m (ok (some m'))

  view-IsUpdate :
      (k : K) (o : Option V) (m : ImtMap S) (t : S.T) (es : List (K × V))
      → IsValid m
      → S.IsValid t
      → S.view t ≡ es
      → Reads k o (S.view m.tree) es
      → IsUpdate k o m (record { tree = t })
  unfolding find size
  view-IsUpdate k o m t es valid valid' same r = record {
    valid = valid';
    reads = λ p. rw (S.find_view t p valid', S.find_view m.tree p valid, same) (r.reads p);
    counted =
        rw (S.find_view m.tree k valid) (
          omega (arith, r.counted, S.size_view t valid', S.size_view m.tree valid, ap length same));
  }

  insert_case :
      (k : K) (v : V) (m : ImtMap S) {r : Outcome (Option S.T)} {o : Option (List (K × V))}
      → IsValid m
      → Refines S.IsValid S.view r o
      → IfAbsent k v (S.view m.tree) o
      → Inserted k v m (wrap S r)
  unfolding find
  insert_case k v m valid Refines.refused (IfAbsent.refused e) =
      Inserted.refused (S.find_view m.tree k valid ∙ e)
  insert_case k v m valid (Refines.returned {t = t} valid' same) (IfAbsent.added e r) =
      inserted (S.find_view m.tree k valid ∙ e) (view-IsUpdate k (some v) m t _ valid valid' same r)

  -- On a valid map of fewer than 2 ^ 32 - 1 entries, over any tree that keeps the laws of the
  -- interface, `Insert` refuses only where `Find` gives a value for the key; else `Find` gave
  -- none, and the new map is valid, reads the value at equivalent keys and the old map at all
  -- others, and counts one entry more.
  pub insert-Inserted :
      (m : ImtMap S) (k : K) (v : V)
      → IsValid m
      → size S m < u32_max
      → Inserted k v m (insert S m k v)
  unfolding insert size
  insert-Inserted m k v valid room =
      insert_case k v m valid (S.insert_view m.tree k v valid room)
        (insert_reads k v (S.view m.tree) (S.valid_sorted m.tree valid))

  change_case :
      (k : K) (v : Option V) (m : ImtMap S) {r : Outcome (Option S.T)} {o : Option (List (K × V))}
      → IsValid m
      → Refines S.IsValid S.view r o
      → IfPresent k v (S.view m.tree) o
      → Changed k v m (wrap S r)
  unfolding find
  change_case k v m valid Refines.refused (IfPresent.refused e) =
      Changed.refused (S.find_view m.tree k valid ∙ e)
  change_case k v m valid (Refines.returned {t = t} valid' same) (IfPresent.changed e r) =
      changed (S.find_view m.tree k valid ∙ e) (view-IsUpdate k v m t _ valid valid' same r)

  -- On a valid map `Update` refuses only where `Find` gives no value for the key; else it gave
  -- one, and the new map is valid, reads the new value at equivalent keys and the old map at all
  -- others, and counts as many entries.
  pub update-Changed :
      (m : ImtMap S) (k : K) (v : V) → IsValid m → Changed k (some v) m (update S m k v)
  unfolding update
  update-Changed m k v valid =
      change_case k (some v) m valid (S.update_view m.tree k v valid)
        (update_reads k v (S.view m.tree) (S.valid_sorted m.tree valid))

  -- On a valid map `Erase` refuses only where `Find` gives no value for the key; else it gave
  -- one, and the new map is valid, reads nothing at equivalent keys and the old map at all
  -- others, and counts one entry less.
  pub erase-Changed : (m : ImtMap S) (k : K) → IsValid m → Changed k none m (erase S m k)
  unfolding erase
  erase-Changed m k valid =
      change_case k none m valid (S.erase_view m.tree k valid)
        (erase_reads k (S.view m.tree) (S.valid_sorted m.tree valid))

  -- On a valid map, which has fewer than 2 ^ 32 - 1 entries where the key is absent, `Set`
  -- returns a valid map that reads the value at equivalent keys and the old map at all others,
  -- and counts one entry more exactly where the key was absent.
  pub set-IsUpdate :
      (m : ImtMap S) (k : K) (v : V)
      → IsValid m
      → (find S m k ≡ none → size S m < u32_max)
      → (m' : ImtMap S) × (set S m k v ≡ ok m') × IsUpdate k (some v) m m'
  unfolding set find size
  set-IsUpdate m k v valid room =
      let (t, e, valid', same) =
        S.set_view m.tree k v valid (λ absent. room (S.find_view m.tree k valid ∙ absent)) in
      (
        record { tree = t },
        rw e refl,
        view-IsUpdate k (some v) m t _ valid valid' same
            (set-Reads k v (S.view m.tree) (S.valid_sorted m.tree valid)),
      )
