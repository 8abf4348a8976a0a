-- ===== src/Container/Blocks.antt =====
-- What `ImmutableBlockTree` asks of its blocks (`Block`, a `ZipList`): the operations, with the laws
-- that tie them to the entries of a block. A block of a tree is never empty.
use cpp_util.Util.{ℕ, ◌≤◌, ◌<◌, ◌≡◌, List, [], ◌∷◌, ◌++◌, Option, Bool, true, false, length, All}
use cpp_util.Container.Comparator.{Comparator}
use cpp_util.Container.Outcome.{Outcome, ok}
use cpp_util.Container.Assoc
use cpp_util.Container.Assoc.{IsSorted, cut}

module _ {ℓ} {B E : Type ℓ} (IsBlock : B → Type 0) (view : B → List E) where
  -- The call returns a block of the given entries.
  abbrev pub Makes : Outcome B → List E → Type ℓ
  Makes m es = (b : B) × (m ≡ ok b) × IsBlock b × (view b ≡ es)

  abbrev pub contents : List B → List E
  contents [] = []
  contents (b ∷ bs) = view b ++ contents bs

  -- The call returns blocks, one at least, that hold the given entries in their order.
  abbrev pub Splits : Outcome (List B) → List E → Type ℓ
  Splits m es =
      (b : B) × (bs : List B) × (m ≡ ok (b ∷ bs))
      × IsBlock b
      × All IsBlock bs
      × (view b ++ contents bs ≡ es)

pub record Blocks {ℓ} (K V : Type ℓ) ⦃c : Comparator K⦄ : Type (ℓ + 1) where
  pub B : Type ℓ
  pub IsBlock : B → Type 0
  pub view : B → List (K × V)
  pub count : B → ℕ
  pub full : B → Bool
  pub can_insert : B → K → V → Bool
  pub can_update : B → ℕ → V → Bool
  pub key_at : B → ℕ → Outcome K
  pub value_at : B → ℕ → Outcome V
  pub lower_bound : B → K → ℕ
  pub find_value : B → K → Outcome (Option V)
  pub from_sorted_entries : List (K × V) → Outcome B
  pub pack_blocks : List (K × V) → Outcome (List B)
  pub with_inserted : B → ℕ → K → V → Outcome B
  pub with_updated : B → ℕ → V → Outcome B
  pub with_erased : B → ℕ → Outcome B
  pub split_inserted : B → ℕ → K → V → Outcome (List B)
  pub split_updated : B → ℕ → V → Outcome (List B)
  pub can_merge : B → B → Bool
  pub merged : B → B → Outcome B
  pub append_to : B → List (K × V) → List (K × V)
  -- The laws.
  pub count_view : (b : B) → count b ≡ length (view b)
  pub count_pos : (b : B) → IsBlock b → 1 ≤ count b
  pub key_at_view :
      (b : B) (i : ℕ) (xs : List (K × V)) (e : K × V) (ys : List (K × V))
      → view b ≡ xs ++ e ∷ ys
      → length xs ≡ i
      → key_at b i ≡ ok e.0
  pub value_at_view :
      (b : B) (i : ℕ) (xs : List (K × V)) (e : K × V) (ys : List (K × V))
      → view b ≡ xs ++ e ∷ ys
      → length xs ≡ i
      → value_at b i ≡ ok e.1
  pub lower_bound_view :
      (b : B) (q : K) → IsSorted (view b) → lower_bound b q ≡ length (cut q (view b)).below
  pub find_value_view :
      (b : B) (q : K) → IsSorted (view b) → find_value b q ≡ ok (Assoc.find q (view b))
  pub single_view : (e : K × V) → Makes IsBlock view (from_sorted_entries (e ∷ [])) (e ∷ [])
  pub pack_view :
      (es : List (K × V))
      → (bs : List B) × (pack_blocks es ≡ ok bs) × All IsBlock bs × (contents IsBlock view bs ≡ es)
  pub inserted_view :
      (b : B) (i : ℕ) (q : K) (w : V) (xs ys : List (K × V))
      → IsBlock b
      → full b ≡ false
      → can_insert b q w ≡ true
      → view b ≡ xs ++ ys
      → length xs ≡ i
      → Makes IsBlock view (with_inserted b i q w) (xs ++ (q, w) ∷ ys)
  pub split_inserted_view :
      (b : B) (i : ℕ) (q : K) (w : V) (xs ys : List (K × V))
      → IsBlock b
      → view b ≡ xs ++ ys
      → length xs ≡ i
      → Splits IsBlock view (split_inserted b i q w) (xs ++ (q, w) ∷ ys)
  pub updated_view :
      (b : B) (i : ℕ) (w : V) (xs : List (K × V)) (e : K × V) (ys : List (K × V))
      → IsBlock b
      → can_update b i w ≡ true
      → view b ≡ xs ++ e ∷ ys
      → length xs ≡ i
      → Makes IsBlock view (with_updated b i w) (xs ++ (e.0, w) ∷ ys)
  pub split_updated_view :
      (b : B) (i : ℕ) (w : V) (xs : List (K × V)) (e : K × V) (ys : List (K × V))
      → IsBlock b
      → can_update b i w ≡ false
      → view b ≡ xs ++ e ∷ ys
      → length xs ≡ i
      → Splits IsBlock view (split_updated b i w) (xs ++ (e.0, w) ∷ ys)
  pub erased_view :
      (b : B) (i : ℕ) (xs : List (K × V)) (e : K × V) (ys : List (K × V))
      → IsBlock b
      → 1 < count b
      → view b ≡ xs ++ e ∷ ys
      → length xs ≡ i
      → Makes IsBlock view (with_erased b i) (xs ++ ys)
  pub merged_view :
      (a b : B)
      → IsBlock a
      → IsBlock b
      → can_merge a b ≡ true
      → Makes IsBlock view (merged a b) (view a ++ view b)
  pub append_to_view : (b : B) (out : List (K × V)) → append_to b out ≡ out ++ view b
