-- ===== src/Resp/Parse/ArrayHeader.antt =====
-- `ParseValueAt` at the header of a packed array.
use cpp_util.Util.{
  ℕ, ◌+◌, ◌^◌, ◌≤◌, ◌<◌, ◌≡◌, ◌==◌, refl, false, some, List, ◌∷◌, ◌++◌, length, arith, ap, ◌∙◌,
  le→ltb, set,
}
use cpp_util.Resp.Types.{Bytes, RespType, RespValue, RespLimits, RespStatus, make_result, int64_max}
use cpp_util.Resp.Number.{unsigned_digits}
use cpp_util.Resp.Parse.{Parsed, reset_value, parse_array, parse_cells, sub_size}
use cpp_util.Resp.Parse.Laws.{
  cells, parse, at_array, array_found, header_line, header_view, printed_length,
}

module _ (target : ℕ) (scratch : List RespValue) (capacity next_free : ℕ) (limits : RespLimits)
    (depth : ℕ) where
  -- The cell holds an array of `count` elements, whose cells are the next free ones.
  abbrev pub reserved : ℕ → ℕ → Parsed
  reserved next count = record {
    result = make_result RespStatus.ok next (some target) "";
    scratch =
        set (cells target scratch capacity next_free limits depth) target (record reset_value {
          kind = RespType.array;
          elements = some next_free;
          element_count = count;
        });
    next_free = next_free + count;
  }

  parse_cells_lem :
      (input : Bytes) (next count : ℕ)
      → 0 < count
      → count ≤ limits.max_array_elements
      → next_free + count ≤ capacity
      → capacity < 2 ^ 64
      → parse_cells input target
          (cells target scratch capacity next_free limits depth)
          next_free
          limits
          capacity
          next
          count
        ≡ reserved next count
  unfolding parse_cells
  parse_cells_lem input next count some_cell allowed room fits =
      rw
        (
          le→ltb limits.max_array_elements count allowed,
          le→ltb (sub_size capacity next_free) count (omega arith),
          not_zero count some_cell,
        )
        refl
    where
      not_zero : (n : ℕ) → 0 < n → (n == 0) ≡ false
      not_zero n h = ground arith

  -- Where the header of a packed array of `count` elements stands at `at` in an input, the count
  -- is positive, fits `int64_t`, is within the limit, and the scratch buffer (of fewer than 2 ^
  -- 64 cells) has so many free cells, and the depth is below the limit and below 128,
  -- `ParseValueAt` succeeds: the cell is filled with an array whose elements are the next free
  -- cells, these are taken, and the bytes consumed end behind the header.
  pub parse_array_value :
      (pre ds rest : Bytes) (at count : ℕ)
      → length pre ≡ at
      → unsigned_digits count ≡ some ds
      → 0 < count
      → count ≤ int64_max
      → count ≤ limits.max_array_elements
      → next_free + count ≤ capacity
      → capacity < 2 ^ 64
      → depth < limits.max_depth
      → depth < 128
      → parse target scratch capacity next_free limits depth
          (pre ++ b'*' ∷ (ds ++ 13 ∷ 10 ∷ rest))
          at
        ≡ reserved (at + 1 + length ds + 2) count
  parse_array_value pre ds rest at count e printed some_cell small allowed room fits shallow
        bounded =
      let input = pre ++ b'*' ∷ (ds ++ 13 ∷ 10 ∷ rest) in
      let (parsed, line) = printed_length count ds small printed in
      at_array target scratch capacity next_free limits depth pre (ds ++ 13 ∷ 10 ∷ rest) at e
        shallow bounded
      ∙ ap
          (parse_array input target (cells target scratch capacity next_free limits depth) next_free
            limits capacity)
          (header_line pre b'*' ds rest at e line)
      ∙ array_found target scratch capacity next_free limits depth input (at + 1) (length ds)
          (at + 1 + length ds + 2) count (rw (header_view pre b'*' ds (13 ∷ 10 ∷ rest) at e) parsed)
          small
      ∙ parse_cells_lem input (at + 1 + length ds + 2) count some_cell allowed room fits
