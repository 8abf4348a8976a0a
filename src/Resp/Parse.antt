-- ===== src/Resp/Parse.antt =====
-- `ParseValueAt`: one value, or the header of an array, into a cell of the scratch buffer.
pub mod Laws
pub mod Progress
pub mod ArrayHeader
use Prim.Native.String.{String}
use cpp_util.Util.{
  ℕ, ◌+◌, ◌-◌, ◌%◌, ◌^◌, ◌==◌, Bool, true, false, ◌||◌, not, Option, none, some, List, length, ltb,
  get_elem?, set, if◌then◌else◌, min,
}
use cpp_util.Util.Int.{ℤ, pos, negsuc}
use cpp_util.Resp.Types.{
  Bytes, RespType, View, RespValue, RespLimits, RespStatus, RespResult, LineResult, make_result,
  max_parser_depth,
}
use cpp_util.Resp.Number.{parse_signed_number, fits_size}
use cpp_util.Resp.Line.{view_bytes, read_line}

-- `ResetValue`.
abbrev pub reset_value : RespValue
reset_value = record {
  kind = RespType.null_bulk_string;
  text = record { begin = 0; size = 0 };
  integer = pos 0;
  elements = none;
  element_count = 0;
}

-- What the call leaves: its result, the scratch buffer and `*next_free`.
pub record Parsed : Type 0 where
  pub result : RespResult
  pub scratch : List RespValue
  pub next_free : ℕ

-- `a - b` on `size_t`.
abbrev pub sub_size : ℕ → ℕ → ℕ
sub_size a b = (a + 2 ^ 64 - b) % 2 ^ 64

-- `input[i] == ch`, for an index in range.
abbrev pub byte_is : Bytes → ℕ → ℕ → Bool
byte_is input i ch = elim (get_elem? input i) [ none ↦ false | some b ↦ b == ch ]

-- `value == -1`.
abbrev pub is_minus_one : ℤ → Bool
is_minus_one (pos n) = false
is_minus_one (negsuc n) = n == 0

-- `static_cast<std::size_t>`.
abbrev pub to_size : ℤ → ℕ
to_size (pos n) = n
to_size (negsuc n) = 2 ^ 64 - (n + 1)

-- A call: the input, the cell that it fills, the buffer behind `ResetValue(target)`, and `*next_free`.
module _ (input : Bytes) (target : ℕ) (scratch : List RespValue) (next_free : ℕ) where
  abbrev pub refuse : RespStatus → String → Parsed
  refuse status message = record {
    result = make_result status 0 none message;
    scratch = scratch;
    next_free = next_free;
  }

  -- The cell is filled with `value`, and the call has read up to `next`.
  abbrev pub fill : RespValue → ℕ → Parsed
  fill value next = record {
    result = make_result RespStatus.ok next (some target) "";
    scratch = set scratch target value;
    next_free = next_free;
  }

  -- What follows a line that was read; else its status and its error.
  abbrev pub on_line : LineResult → Parsed → Parsed
  on_line line read = elim line.status [ RespStatus.ok ↦ read | other ↦ refuse other line.error ]

  -- What follows a line that holds a number.
  abbrev pub on_number : LineResult → String → (ℤ → Parsed) → Parsed
  on_number line message read =
      on_line line
        (elim (parse_signed_number
          (view_bytes input (record { begin = line.begin; size = line.size }))) [
            | none ↦ refuse RespStatus.error message
            | some number ↦ read number
          ])

  unfoldable pub parse_text : RespType → LineResult → Parsed
  parse_text kind line = on_line line (
      fill
        (record reset_value { kind = kind; text = record { begin = line.begin; size = line.size } })
        line.next)

  unfoldable pub parse_integer : LineResult → Parsed
  parse_integer line =
      on_number line "invalid integer" (λ parsed.
        fill (record reset_value { kind = RespType.integer; integer = parsed }) line.next)

  -- The payload of a bulk string of `bulk_size` bytes, which starts at `next`.
  unfoldable pub parse_payload : RespLimits → ℕ → ℕ → Parsed
  parse_payload limits next bulk_size =
      if ltb limits.max_bulk_bytes bulk_size
      then refuse RespStatus.error "bulk length limit"
      else if ltb (sub_size (length input) next) bulk_size
      then refuse RespStatus.need_more ""
      else if ltb (sub_size (length input) (next + bulk_size)) 2
      then refuse RespStatus.need_more ""
      else if not (byte_is input (next + bulk_size) 13)
          || not (byte_is input (next + bulk_size + 1) 10)
      then refuse RespStatus.error "invalid bulk trailer"
      else fill
          (record reset_value {
            kind = RespType.bulk_string;
            text = record { begin = next; size = bulk_size };
          })
          (next + bulk_size + 2)

  unfoldable pub parse_bulk : RespLimits → LineResult → Parsed
  parse_bulk limits line = on_number line "invalid bulk length" (λ bulk_length.
      if is_minus_one bulk_length
      then fill (record reset_value { kind = RespType.null_bulk_string }) line.next
      else if not (fits_size bulk_length)
      then refuse RespStatus.error "invalid bulk length"
      else parse_payload limits line.next (to_size bulk_length))

  -- The cells of an array of `count` elements, behind its header.
  unfoldable pub parse_cells : RespLimits → ℕ → ℕ → ℕ → Parsed
  parse_cells limits scratch_capacity next count =
      if ltb limits.max_array_elements count
      then refuse RespStatus.error "array length limit"
      else if ltb (sub_size scratch_capacity next_free) count
      then refuse RespStatus.no_memory "scratch exhausted"
      else if count == 0
      then fill (record reset_value { kind = RespType.array }) next
      else record {
        result = make_result RespStatus.ok next (some target) "";
        scratch = set scratch target (record reset_value {
          kind = RespType.array;
          elements = some next_free;
          element_count = count;
        });
        next_free = next_free + count;
      }

  unfoldable pub parse_array : RespLimits → ℕ → LineResult → Parsed
  parse_array limits scratch_capacity line = on_number line "invalid array length" (λ count.
      if is_minus_one count
      then fill (record reset_value { kind = RespType.null_array }) line.next
      else if not (fits_size count)
      then refuse RespStatus.error "invalid array length"
      else parse_cells limits scratch_capacity line.next (to_size count))

-- `ParseValueAt`. Where `pos` is past the input the cell is left as it is.
unfoldable pub parse_value_at : Bytes → ℕ → ℕ → List RespValue → ℕ → ℕ → RespLimits → ℕ → Parsed
parse_value_at input at target scratch capacity next_free limits active_depth =
    elim (get_elem? input at) [
      | none ↦ refuse input target scratch next_free RespStatus.need_more ""
      | some prefix ↦
          let cells = set scratch target reset_value in
          if prefix == b'+'
          then parse_text input target cells next_free RespType.simple_string
              (read_line input (at + 1))
          else if prefix == b'-'
          then parse_text input target cells next_free RespType.error (read_line input (at + 1))
          else if prefix == b':'
          then parse_integer input target cells next_free (read_line input (at + 1))
          else if prefix == b'$'
          then parse_bulk input target cells next_free limits (read_line input (at + 1))
          else if prefix == b'*'
          then (if ltb (min limits.max_depth max_parser_depth) (active_depth + 1)
              then refuse input target cells next_free RespStatus.error "array depth limit"
              else parse_array input target cells next_free limits capacity
                  (read_line input (at + 1)))
          else refuse input target cells next_free RespStatus.error "unknown RESP type"
    ]
