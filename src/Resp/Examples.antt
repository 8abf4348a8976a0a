-- ===== src/Resp/Examples.antt =====
-- Small messages: tests of packing and unpacking, and the theorems at them.
use mathlib.Core.Option
use cpp_util.Util.{◌≡◌, ◌+◌, ◌⊎◌, ◌^◌, ◌≤◌, refl, List, [], ◌∷◌, arith, some, All, length}
use cpp_util.Util.Int.{negsuc}
use cpp_util.Resp.Types.{Bytes, RespType, RespValue, RespStatus}
use cpp_util.Resp.Number.{
  scan_digits, negate, parse_signed_number, fits_size, emit_digits, unsigned_digits, magnitude_of,
  signed_digits, decimal_length,
}
use cpp_util.Resp.Number.RoundTrip.{IsDigit, parse_signed_number-signed}
use cpp_util.Resp.Line.{scan_line, read_line}
use cpp_util.Resp.Pack.{
  pack_simple_string, pack_error, pack_integer, pack_bulk_string, pack_null_bulk_string,
  pack_array_header, pack_null_array, pack_bulk_strings, pack_command, additional, reserve_args,
}
use cpp_util.Resp.Pack.Size.{pack_command-additional}
use cpp_util.Resp.Parse.{
  reset_value, fill, parse_text, parse_integer, parse_payload, parse_bulk, parse_cells, parse_array,
  parse_value_at,
}
use cpp_util.Resp.Parse.Laws.{cells, parse_bulk_value}
use cpp_util.Resp.Parse.ArrayHeader.{reserved, parse_array_value}
use cpp_util.Resp.Unpack.Total.{unpack_one-Returns}
use cpp_util.Resp.Unpack.{Unpacked, default_limits, advance, after_value, unpack_loop, unpack_one}

abbrev three_cells : List RespValue
three_cells = reset_value ∷ reset_value ∷ reset_value ∷ []

-- The array of the integer -7 and the error `e`.
abbrev message : Bytes
message = b'*' ∷ b'2' ∷ 13 ∷ 10 ∷ b':' ∷ b'-' ∷ b'7' ∷ 13 ∷ 10 ∷ b'-' ∷ b'e' ∷ 13 ∷ 10 ∷ []

packs :
    (pack_null_array (pack_null_bulk_string (pack_simple_string (b'a' ∷ []) []))
      ≡ b'+' ∷ b'a' ∷ 13 ∷ 10 ∷ b'$' ∷ b'-' ∷ b'1' ∷ 13 ∷ 10 ∷ b'*' ∷ b'-' ∷ b'1' ∷ 13 ∷ 10 ∷ [])
    × (pack_integer (negsuc 6) (b'*' ∷ b'2' ∷ 13 ∷ 10 ∷ [])
        ≡ some (b'*' ∷ b'2' ∷ 13 ∷ 10 ∷ b':' ∷ b'-' ∷ b'7' ∷ 13 ∷ 10 ∷ []))
    × (pack_error (b'e' ∷ []) [] ≡ b'-' ∷ b'e' ∷ 13 ∷ 10 ∷ [])
unfolding pack_null_array pack_null_bulk_string pack_simple_string pack_error pack_integer
    signed_digits emit_digits magnitude_of
packs = (refl, refl, refl)

packs_command :
    pack_command ((b'a' ∷ []) ∷ []) []
    ≡ some (b'*' ∷ b'1' ∷ 13 ∷ 10 ∷ b'$' ∷ b'1' ∷ 13 ∷ 10 ∷ b'a' ∷ 13 ∷ 10 ∷ [])
unfolding pack_command pack_bulk_strings pack_bulk_string pack_array_header unsigned_digits
    emit_digits
packs_command = refl

counts_digits :
    (decimal_length 20 18446744073709551615 1 ≡ 20) × (additional ((b'a' ∷ []) ∷ []) ≡ 11)
unfolding decimal_length additional reserve_args
counts_digits = (refl, refl)

pack_command-additional_example :
    (out' : Bytes) × (pack_command ((b'a' ∷ []) ∷ []) [] ≡ some out')
    × ((length out' ≡ 0 + additional ((b'a' ∷ []) ∷ [])) ⊎ (2 ^ 64 ≤ length out'))
pack_command-additional_example =
    pack_command-additional ((b'a' ∷ []) ∷ []) [] (omega arith, tt) (omega arith)

unpacks :
    Option.map (λ u. u.result.consumed) (unpack_one message three_cells default_limits) ≡ some 13
unfolding unpack_one unpack_loop after_value advance parse_value_at parse_text parse_integer
    parse_array parse_cells read_line scan_line parse_signed_number scan_digits negate fits_size
unpacks = refl

-- Two cells are too few.
runs_out :
    Option.map
      (λ u. u.result.status)
      (unpack_one message (reset_value ∷ reset_value ∷ []) default_limits)
    ≡ some RespStatus.no_memory
unfolding unpack_one unpack_loop after_value advance parse_value_at parse_text parse_integer
    parse_array parse_cells parse_bulk parse_payload read_line scan_line parse_signed_number
    scan_digits negate fits_size
runs_out = refl

-- No number begins with a letter, and the call asks for more bytes all the same.
waits :
    Option.map (λ u. u.result.status) (unpack_one (b':' ∷ b'a' ∷ []) three_cells default_limits)
    ≡ some RespStatus.need_more
unfolding unpack_one unpack_loop after_value parse_value_at parse_integer read_line scan_line
waits = refl

parse_signed_number-signed_example :
    (ds : Bytes) × (signed_digits (negsuc 6) ≡ some ds)
    × (parse_signed_number ds ≡ some (negsuc 6))
    × All (λ b. (b ≡ b'-') ⊎ IsDigit b) ds
parse_signed_number-signed_example = parse_signed_number-signed (negsuc 6) (omega arith)

one_digit : unsigned_digits 1 ≡ some (b'1' ∷ [])
unfolding unsigned_digits emit_digits
one_digit = refl

parse_bulk_value_example :
    (let input : Bytes = b'$' ∷ b'1' ∷ 13 ∷ 10 ∷ b'a' ∷ 13 ∷ 10 ∷ [] in
      parse_value_at input 0 0 three_cells 3 1 default_limits 0
      ≡ fill input 0
          (cells 0 three_cells 3 1 default_limits 0)
          1
          (record reset_value {
            kind = RespType.bulk_string;
            text = record { begin = 4; size = 1 };
          })
          7)
parse_bulk_value_example =
    parse_bulk_value 0 three_cells 3 1 default_limits 0 [] (b'1' ∷ []) (b'a' ∷ []) [] 0 refl
      one_digit (omega arith) (omega arith)

unpack_one-Returns_example :
    (u : Unpacked) × (unpack_one message three_cells default_limits ≡ some u)
    × (u.result.consumed ≤ length message)
unpack_one-Returns_example = unpack_one-Returns message three_cells default_limits (omega arith)

two_digit : unsigned_digits 2 ≡ some (b'2' ∷ [])
unfolding unsigned_digits emit_digits
two_digit = refl

parse_array_value_example :
    parse_value_at (b'*' ∷ b'2' ∷ 13 ∷ 10 ∷ []) 0 0 three_cells 3 1 default_limits 0
    ≡ reserved 0 three_cells 3 1 default_limits 0 4 2
parse_array_value_example =
    parse_array_value 0 three_cells 3 1 default_limits 0 [] (b'2' ∷ []) [] 0 2 refl two_digit
      (omega arith) (omega arith) (omega arith) (omega arith) (omega arith) (omega arith)
      (omega arith)
