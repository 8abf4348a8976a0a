-- ===== src/Container/Store.antt =====
-- What `ImtMap` and `ImtSet` ask of their template argument `Tree`: the operations of a persistent
-- ordered tree, with the laws that tie them to the sorted list of entries that a tree stands for.
use cpp_util.Util.{◌==◌, is_some, Bool}
use cpp_util.Util.{ℕ, ◌≤◌, ◌<◌, ◌≡◌, List, [], Option, none, some, length}
use cpp_util.Container.Comparator.{Comparator}
use cpp_util.Container.Outcome.{Outcome, ok}
use cpp_util.Container.Assoc
use cpp_util.Container.Assoc.{IsSorted}

-- `std::numeric_limits<std::uint32_t>::max()`, the most entries that a node can count.
abbrev pub u32_max : ℕ
u32_max = 4294967295

-- A call refines an abstract operation: it returns, it refuses when that refuses, and else its result
-- is valid and stands for the operation's list.
pub data Refines {ℓ κ} {T E : Type ℓ} (IsValid : T → Type κ) (view : T → List E)
    : Outcome (Option T) → Option (List E) → Type (ℓ ⊔ κ) where
  refused : Refines IsValid view (ok none) none
  returned :
      {t : T} {es : List E} → IsValid t → view t ≡ es → Refines IsValid view (ok (some t)) (some es)

-- The same for a call that does not refuse.
abbrev pub Gives {ℓ} : {T E : Type ℓ} → (T → Type ℓ) → (T → List E) → Outcome T → List E → Type ℓ
Gives {T} IsValid view m es = (t : T) × (m ≡ ok t) × IsValid t × (view t ≡ es)

pub record Store {ℓ} (K V : Type ℓ) ⦃c : Comparator K⦄ : Type (ℓ + 1) where
  pub T : Type ℓ
  pub IsValid : T → Type ℓ
  pub view : T → List (K × V)
  pub empty : T
  pub size : T → ℕ
  pub is_empty : T → Bool
  pub find : T → K → Option V
  pub contains : T → K → Bool
  pub to_vector : T → List (K × V)
  pub insert : T → K → V → Outcome (Option T)
  pub update : T → K → V → Outcome (Option T)
  pub erase : T → K → Outcome (Option T)
  pub set : T → K → V → Outcome T
  pub from_sorted_unique : List (K × V) → Outcome T
  -- The laws.
  pub valid_sorted : (t : T) → IsValid t → IsSorted (view t)
  pub empty_valid : IsValid empty
  pub empty_view : view empty ≡ []
  pub size_view : (t : T) → IsValid t → size t ≡ length (view t)
  pub is_empty_size : (t : T) → IsValid t → is_empty t ≡ (size t == 0)
  pub contains_find : (t : T) (q : K) → contains t q ≡ is_some (find t q)
  pub find_view : (t : T) (q : K) → IsValid t → find t q ≡ Assoc.find q (view t)
  pub to_vector_view : (t : T) → to_vector t ≡ view t
  pub insert_view :
      (t : T) (q : K) (w : V)
      → IsValid t
      → size t < u32_max
      → Refines IsValid view (insert t q w) (Assoc.insert q w (view t))
  pub update_view :
      (t : T) (q : K) (w : V)
      → IsValid t
      → Refines IsValid view (update t q w) (Assoc.update q w (view t))
  pub erase_view :
      (t : T) (q : K) → IsValid t → Refines IsValid view (erase t q) (Assoc.erase q (view t))
  pub set_view :
      (t : T) (q : K) (w : V)
      → IsValid t
      → (Assoc.find q (view t) ≡ none → size t < u32_max)
      → Gives IsValid view (set t q w) (Assoc.set q w (view t))
  pub from_sorted_view :
      (es : List (K × V))
      → IsSorted es
      → length es ≤ u32_max
      → Gives IsValid view (from_sorted_unique es) es
