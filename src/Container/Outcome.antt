-- ===== src/Container/Outcome.antt =====
-- The outcome of a call: its value, or what ends it. Two of the errors are `std::length_error`, one is
-- `std::invalid_argument`; `null_read` and `out_of_range` are undefined behaviour (a read through a
-- null pointer, or past the end of a vector), and `no_fuel` is a loop of the model that is given too
-- few rounds. Then come what a ZipList throws,
-- and `dangling`, an access to an object that was deleted.
pub data Error : Type 0 where
  height_exceeds size_exceeds not_sorted null_read out_of_range no_fuel : Error
  full_block exceeds_capacity bad_index merge_exceeds single_entry : Error
  dangling : Error

pub data Outcome {ℓ} (A : Type ℓ) : Type ℓ where
  ok : A → Outcome A
  throw : Error → Outcome A

infixl 5 ◌>>=◌
abbrev pub ◌>>=◌ {ℓ κ} : {A : Type ℓ} {B : Type κ} → Outcome A → (A → Outcome B) → Outcome B
ok a >>= f = f a
throw e >>= f = throw e
