-- ===== src/Resp/Pack.antt =====
-- The `Pack` functions: each appends to `out`. A number whose digits overran their buffer would be
-- `none`.
pub mod Size
use cpp_util.Util.{ℕ, ◌+◌, ◌%◌, ◌^◌, List, [], ◌∷◌, ◌++◌, Option, none, some, length}
use cpp_util.Util.Int.{ℤ}
use cpp_util.Resp.Types.{Bytes}
use cpp_util.Resp.Number.{signed_digits, unsigned_digits, decimal_length}

abbrev pub crlf : Bytes
crlf = 13 ∷ 10 ∷ []

unfoldable pub pack_simple_string : Bytes → Bytes → Bytes
pack_simple_string value out = out ++ b'+' ∷ (value ++ crlf)

unfoldable pub pack_error : Bytes → Bytes → Bytes
pack_error value out = out ++ b'-' ∷ (value ++ crlf)

unfoldable pub pack_integer : ℤ → Bytes → Option Bytes
pack_integer value out = elim (signed_digits value) [
  | none ↦ none
  | some digits ↦ some (out ++ b':' ∷ (digits ++ crlf))
]

unfoldable pub pack_bulk_string : Bytes → Bytes → Option Bytes
pack_bulk_string value out = elim (unsigned_digits (length value)) [
  | none ↦ none
  | some digits ↦ some (out ++ b'$' ∷ (digits ++ (crlf ++ (value ++ crlf))))
]

unfoldable pub pack_null_bulk_string : Bytes → Bytes
pack_null_bulk_string out = out ++ b'$' ∷ b'-' ∷ b'1' ∷ crlf

unfoldable pub pack_array_header : ℕ → Bytes → Option Bytes
pack_array_header count out = elim (unsigned_digits count) [
  | none ↦ none
  | some digits ↦ some (out ++ b'*' ∷ (digits ++ crlf))
]

unfoldable pub pack_null_array : Bytes → Bytes
pack_null_array out = out ++ b'*' ∷ b'-' ∷ b'1' ∷ crlf

-- The loop of `PackCommand` over its arguments.
unfoldable pub pack_bulk_strings : List Bytes → Bytes → Option Bytes
pack_bulk_strings [] out = some out
pack_bulk_strings (arg ∷ args) out = elim (pack_bulk_string arg out) [
  | none ↦ none
  | some out' ↦ pack_bulk_strings args out'
]

-- `PackCommand`: the bytes that it reserves. `additional` is a `size_t`, and no length has more than
-- 32 digits.
unfoldable pub reserve_args : List Bytes → ℕ → ℕ
reserve_args [] additional = additional
reserve_args (arg ∷ args) additional =
    reserve_args args
      ((additional + (1 + decimal_length 32 (length arg) 1 + 2 + length arg + 2)) % 2 ^ 64)

unfoldable pub additional : List Bytes → ℕ
additional args = reserve_args args (1 + decimal_length 32 (length args) 1 + 2)

-- `PackCommand`: what it appends. The reservation changes no byte.
unfoldable pub pack_command : List Bytes → Bytes → Option Bytes
pack_command args out = elim (pack_array_header (length args) out) [
  | none ↦ none
  | some out' ↦ pack_bulk_strings args out'
]
