-- ===== src/Resp/Number.antt =====
-- `ParseSignedNumber`, `FitsSize`, `AppendSignedInteger`, `AppendUnsignedInteger`, `DecimalLength`.
pub mod RoundTrip
use cpp_util.Util.{
  ℕ, zero, suc, ◌+◌, ◌-◌, ◌*◌, ◌/◌, ◌%◌, ◌^◌, Bool, true, false, ◌||◌, Option, none, some, List, [],
  ◌∷◌, ◌++◌, ltb, leb, ◌==◌, if◌then◌else◌,
}
use cpp_util.Util.Int.{ℤ, pos, negsuc}
use cpp_util.Resp.Types.{Bytes, int64_max, size_max}

-- The loop over the digits. `magnitude` is a `uint64_t`.
unfoldable pub scan_digits : ℕ → Bytes → ℕ → Option ℕ
scan_digits limit [] magnitude = some magnitude
scan_digits limit (ch ∷ text) magnitude =
    if ltb ch b'0' || ltb b'9' ch
    then none
    else if ltb ((limit - (ch - b'0')) / 10) magnitude
    then none
    else scan_digits limit text ((magnitude * 10 + (ch - b'0')) % 2 ^ 64)

-- The signed value of a magnitude. `-static_cast<int64_t>(0)` is 0.
unfoldable pub negate : ℕ → ℤ
negate magnitude =
    if magnitude == 9223372036854775808
    then negsuc int64_max
    else if magnitude == 0
    then pos 0
    else negsuc (magnitude - 1)

unfoldable pub parse_signed_number : Bytes → Option ℤ
parse_signed_number [] = none
parse_signed_number (ch ∷ text) = elim (ch == b'-') [
  | true ↦ elim text [
    | [] ↦ none
    | d ∷ ds ↦ elim (scan_digits 9223372036854775808 (d ∷ ds) 0) [
      | none ↦ none
      | some magnitude ↦ some (negate magnitude)
    ]
  ]
  | false ↦ elim (scan_digits int64_max (ch ∷ text) 0) [
    | none ↦ none
    | some magnitude ↦ some (pos magnitude)
  ]
]

unfoldable pub fits_size : ℤ → Bool
fits_size (pos n) = leb n size_max
fits_size (negsuc n) = false

-- The do-while loop that fills `digits` from its end: the first number is the room left in the
-- buffer, and `none` is a write before its start.
unfoldable pub emit_digits : ℕ → ℕ → Bytes → Option Bytes
emit_digits zero value out = none
emit_digits (suc room) value out = elim (value / 10 == 0) [
  | true ↦ some ((b'0' + value % 10) ∷ out)
  | false ↦ emit_digits room (value / 10) ((b'0' + value % 10) ∷ out)
]

-- What `AppendUnsignedInteger` appends. The buffer has 32 bytes.
unfoldable pub unsigned_digits : ℕ → Option Bytes
unsigned_digits value = emit_digits 32 value []

-- What `AppendSignedInteger` appends: the digits leave room for the sign in 32 bytes.
unfoldable pub magnitude_of : ℤ → ℕ
magnitude_of (pos n) = n
magnitude_of (negsuc n) = n + 1

unfoldable pub signed_digits : ℤ → Option Bytes
signed_digits (pos n) = emit_digits 32 (magnitude_of (pos n)) []
signed_digits (negsuc n) = elim (emit_digits 31 (magnitude_of (negsuc n)) []) [
  | none ↦ none
  | some digits ↦ some (b'-' ∷ digits)
]

-- `DecimalLength`: `rounds` bounds the loop.
unfoldable pub decimal_length : ℕ → ℕ → ℕ → ℕ
decimal_length zero value length = length
decimal_length (suc rounds) value length = elim (ltb value 10) [
  | true ↦ length
  | false ↦ decimal_length rounds (value / 10) (length + 1)
]
