-- ===== src/Resp/Parse/Laws.antt =====
-- `ParseValueAt` on packed values: what it reads, and where it ends.
use mathlib.Core.Option.{some-injective}
use cpp_util.Util.{
  ℕ, ◌+◌, ◌-◌, ◌^◌, ◌≤◌, ◌<◌, ◌≡◌, ◌≢◌, refl, true, false, some, List, [], ◌∷◌, ◌++◌, length, ltb,
  get_elem?, set, All, All-imp, arith, length-append, append_assoc, ◌∙◌, ap, sym, min,
  get_elem?-length, drop-length, take-length, le→ltb, subst,
}
use cpp_util.Util.Int.{pos}
use cpp_util.Resp.Types.{Bytes, RespType, RespValue, RespLimits, max_parser_depth, int64_max}
use cpp_util.Resp.Number.{parse_signed_number, unsigned_digits}
use cpp_util.Resp.Number.RoundTrip.{IsDigit, parse_signed_number-unsigned, fits_size_lem}
use cpp_util.Resp.Line.{view_bytes, read_line}
use cpp_util.Resp.Line.Laws.{IsLine, found, read_line_lem}
use cpp_util.Resp.Parse.{
  Parsed, reset_value, parse_value_at, parse_bulk, parse_payload, parse_array, parse_cells, fill,
  sub_size, byte_is,
}

pub IsDigit-IsLine : (ds : Bytes) → All IsDigit ds → IsLine ds
IsDigit-IsLine ds h = All-imp IsDigit (λ b. b ≢ 10) (λ b p. omega arith) ds h

-- The bytes of a view are the ones that stand there.
pub view_bytes-append :
    (pre text rest : Bytes) (begin : ℕ)
    → length pre ≡ begin
    → view_bytes (pre ++ (text ++ rest)) (record { begin = begin; size = length text }) ≡ text
view_bytes-append pre text rest begin e = rw (← e, drop-length) (take-length text rest)

-- The line behind a type byte, and its bytes.
pub header_line :
    (pre : Bytes) (b : ℕ) (ds rest : Bytes) (at : ℕ)
    → length pre ≡ at
    → IsLine ds
    → read_line (pre ++ b ∷ (ds ++ 13 ∷ 10 ∷ rest)) (at + 1)
      ≡ found (at + 1) (length ds) (at + 1 + length ds + 2)
header_line pre b ds rest at e l =
    subst
      (λ (i : Bytes). read_line i (at + 1) ≡ found (at + 1) (length ds) (at + 1 + length ds + 2))
      (append_assoc pre (b ∷ []) (ds ++ 13 ∷ 10 ∷ rest))
      (read_line_lem (pre ++ b ∷ []) ds rest (at + 1) (omega (arith, length-append pre (b ∷ []))) l)

pub header_view :
    (pre : Bytes) (b : ℕ) (ds rest : Bytes) (at : ℕ)
    → length pre ≡ at
    → view_bytes (pre ++ b ∷ (ds ++ rest)) (record { begin = at + 1; size = length ds }) ≡ ds
header_view pre b ds rest at e =
    subst (λ (i : Bytes). view_bytes i (record { begin = at + 1; size = length ds }) ≡ ds)
      (append_assoc pre (b ∷ []) (ds ++ rest))
      (view_bytes-append (pre ++ b ∷ []) ds rest (at + 1)
        (omega (arith, length-append pre (b ∷ []))))

sub_size_lem : (a b : ℕ) → b ≤ a → a < 2 ^ 64 → sub_size a b ≡ a - b
sub_size_lem a b h k = omega arith

byte_at :
    (pre text rest : Bytes) (b i : ℕ)
    → length pre + length text ≡ i
    → byte_is (pre ++ (text ++ b ∷ rest)) i b ≡ true
byte_at pre text rest b i e =
    let there : get_elem? (pre ++ (text ++ b ∷ rest)) i ≡ some b =
      subst (λ (l : Bytes). get_elem? l i ≡ some b) (append_assoc pre text (b ∷ rest))
        (get_elem?-length (pre ++ text) b rest i (length-append pre text ∙ e)) in
    rw (there, byte_is) (ground arith)

-- A payload that is there, with its trailer, and within the limit.
pub parse_payload_lem :
    (target : ℕ) (cells : List RespValue) (next_free : ℕ) (limits : RespLimits)
    → (pre value rest : Bytes) (next : ℕ) → length pre ≡ next
    → length (pre ++ (value ++ 13 ∷ 10 ∷ rest)) < 2 ^ 64
    → length value ≤ limits.max_bulk_bytes
    → parse_payload
        (pre ++ (value ++ 13 ∷ 10 ∷ rest))
        target
        cells
        next_free
        limits
        next
        (length value)
      ≡ fill
          (pre ++ (value ++ 13 ∷ 10 ∷ rest))
          target
          cells
          next_free
          (record reset_value {
            kind = RespType.bulk_string;
            text = record { begin = next; size = length value };
          })
          (next + length value + 2)
unfolding parse_payload
parse_payload_lem target cells next_free limits pre value rest next e fits allowed =
    let input = pre ++ (value ++ 13 ∷ 10 ∷ rest) in
    let total : length input ≡ next + (length value + (2 + length rest)) =
      omega (
        arith,
        length-append pre (value ++ 13 ∷ 10 ∷ rest),
        length-append value (13 ∷ 10 ∷ rest),
      ) in
    let cr : byte_is input (next + length value) 13 ≡ true =
      byte_at pre value (10 ∷ rest) 13 (next + length value) (omega arith) in
    let lf : byte_is input (next + length value + 1) 10 ≡ true =
      subst (λ (l : Bytes). byte_is (pre ++ l) (next + length value + 1) 10 ≡ true)
        (append_assoc value (13 ∷ []) (10 ∷ rest))
        (byte_at pre (value ++ 13 ∷ []) rest 10 (next + length value + 1)
          (omega (arith, length-append value (13 ∷ [])))) in
    rw
      (
        le→ltb limits.max_bulk_bytes (length value) allowed,
        le→ltb (sub_size (length input) next) (length value) (omega arith),
        le→ltb (sub_size (length input) (next + length value)) 2 (omega arith),
        cr,
        lf,
      )
      refl

-- A printed length: read back, and without a line feed.
pub printed_length :
    (n : ℕ) (ds : Bytes)
    → n ≤ int64_max
    → unsigned_digits n ≡ some ds
    → (parse_signed_number ds ≡ some (pos n)) × IsLine ds
printed_length n ds h printed =
    let (ds', printed', parsed, digits) = parse_signed_number-unsigned n h in
    subst (λ (l : Bytes). (parse_signed_number l ≡ some (pos n)) × IsLine l)
      (some-injective ds' ds (sym printed' ∙ printed)) (parsed, IsDigit-IsLine ds' digits)

module _ (target : ℕ) (scratch : List RespValue) (capacity next_free : ℕ) (limits : RespLimits)
    (depth : ℕ) where
  abbrev pub parse : Bytes → ℕ → Parsed
  parse input at = parse_value_at input at target scratch capacity next_free limits depth

  abbrev pub cells : List RespValue
  cells = set scratch target reset_value

  -- The dispatch on the byte at `pos`.
  at_bulk :
      (pre rest : Bytes) (at : ℕ)
      → length pre ≡ at
      → parse (pre ++ b'$' ∷ rest) at
        ≡ parse_bulk
            (pre ++ b'$' ∷ rest)
            target
            cells
            next_free
            limits
            (read_line (pre ++ b'$' ∷ rest) (at + 1))
  unfolding parse_value_at
  at_bulk pre rest at e = rw (get_elem?-length pre b'$' rest at e, parse_value_at) refl

  pub at_array :
      (pre rest : Bytes) (at : ℕ)
      → length pre ≡ at
      → depth < limits.max_depth
      → depth < 128
      → parse (pre ++ b'*' ∷ rest) at
        ≡ parse_array
            (pre ++ b'*' ∷ rest)
            target
            cells
            next_free
            limits
            capacity
            (read_line (pre ++ b'*' ∷ rest) (at + 1))
  unfolding parse_value_at
  at_array pre rest at e d d' =
      let shallow : ltb (min limits.max_depth max_parser_depth) (depth + 1) ≡ false =
        le→ltb _ _ (omega arith) in
      rw (get_elem?-length pre b'*' rest at e, shallow, parse_value_at) refl

  bulk_found :
      (input : Bytes) (begin size next n : ℕ)
      → parse_signed_number (view_bytes input (record { begin = begin; size = size }))
        ≡ some (pos n)
      → n ≤ int64_max
      → parse_bulk input target cells next_free limits (found begin size next)
        ≡ parse_payload input target cells next_free limits next n
  unfolding parse_bulk
  bulk_found input begin size next n parsed h = rw (parsed, fits_size_lem n h, parse_bulk) refl

  pub array_found :
      (input : Bytes) (begin size next n : ℕ)
      → parse_signed_number (view_bytes input (record { begin = begin; size = size }))
        ≡ some (pos n)
      → n ≤ int64_max
      → parse_array input target cells next_free limits capacity (found begin size next)
        ≡ parse_cells input target cells next_free limits capacity next n
  unfolding parse_array
  array_found input begin size next n parsed h = rw (parsed, fits_size_lem n h, parse_array) refl

  -- Where a packed bulk string stands at `at` in an input of less than 2 ^ 63 bytes, and its size
  -- is within the limit, `ParseValueAt` succeeds: the cell is filled with a bulk string whose
  -- view is exactly the payload, and the bytes consumed end behind the trailer.
  pub parse_bulk_value :
      (pre ds value rest : Bytes) (at : ℕ)
      → length pre ≡ at
      → unsigned_digits (length value) ≡ some ds
      → length value ≤ limits.max_bulk_bytes
      → length (pre ++ b'$' ∷ (ds ++ 13 ∷ 10 ∷ (value ++ 13 ∷ 10 ∷ rest))) < 2 ^ 63
      → (let input = pre ++ b'$' ∷ (ds ++ 13 ∷ 10 ∷ (value ++ 13 ∷ 10 ∷ rest)) in
          parse input at
          ≡ fill input target cells next_free
              (record reset_value {
                kind = RespType.bulk_string;
                text = record { begin = at + 1 + length ds + 2; size = length value };
              })
              (at + 1 + length ds + 2 + length value + 2))
  parse_bulk_value pre ds value rest at e printed allowed fits =
      let total = length-append pre (b'$' ∷ (ds ++ 13 ∷ 10 ∷ (value ++ 13 ∷ 10 ∷ rest))) in
      let total' = length-append ds (13 ∷ 10 ∷ (value ++ 13 ∷ 10 ∷ rest)) in
      let total'' = length-append value (13 ∷ 10 ∷ rest) in
      let (parsed, line) = printed_length (length value) ds (omega arith) printed in
      let body = value ++ 13 ∷ 10 ∷ rest in
      let input = pre ++ b'$' ∷ (ds ++ 13 ∷ 10 ∷ body) in
      let front = pre ++ b'$' ∷ (ds ++ 13 ∷ 10 ∷ []) in
      let whole : front ++ body ≡ input = simp append_assoc in
      let next : length front ≡ at + 1 + length ds + 2 =
        omega (
          arith,
          length-append pre (b'$' ∷ (ds ++ 13 ∷ 10 ∷ [])),
          length-append ds (13 ∷ 10 ∷ []),
        ) in
      at_bulk pre (ds ++ 13 ∷ 10 ∷ body) at e
      ∙ ap (parse_bulk input target cells next_free limits) (header_line pre b'$' ds body at e line)
      ∙ bulk_found input (at + 1) (length ds) (at + 1 + length ds + 2) (length value)
          (rw (header_view pre b'$' ds (13 ∷ 10 ∷ body) at e) parsed) (omega arith)
      ∙ (subst
          (λ (i : Bytes).
            parse_payload i target cells next_free limits (at + 1 + length ds + 2) (length value)
            ≡ fill i target cells next_free
                (record reset_value {
                  kind = RespType.bulk_string;
                  text = record { begin = at + 1 + length ds + 2; size = length value };
                })
                (at + 1 + length ds + 2 + length value + 2))
          whole
          (parse_payload_lem target cells next_free limits front value rest (at + 1 + length ds + 2)
            next (rw whole (omega arith)) allowed))
