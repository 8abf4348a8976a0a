-- ===== src/Resp/Parse/Progress.antt =====
-- How far a call of `ParseValueAt` reads.
use Prim.Native.String.{String}
use cpp_util.Util.{
  ℕ, ◌+◌, ◌^◌, ◌≤◌, ◌<◌, ◌≡◌, ◌≢◌, ◌==◌, Bool, true, false, ◌||◌, not, Option, none, some, List, [],
  ◌∷◌, arith, length, length-drop, ltb, Bool-cases, inl, inr, if◌then◌else◌, get_elem?, set, drop,
  min, refl,
}
use cpp_util.Util.Int.{ℤ}
use cpp_util.Resp.Types.{
  Bytes, RespValue, RespLimits, RespStatus, LineResult, RespType, max_parser_depth,
}
use cpp_util.Resp.Number.{parse_signed_number, fits_size}
use cpp_util.Resp.Line.{scan_line, read_line, view_bytes}
use cpp_util.Resp.Parse.{
  Parsed, refuse, fill, on_line, on_number, parse_text, parse_integer, parse_payload, parse_bulk,
  parse_cells, parse_array, parse_value_at, is_minus_one, to_size, sub_size, byte_is, reset_value,
}

-- A line that was read ends behind its begin and within the input.
abbrev Moves : ℕ → ℕ → LineResult → Type 0
Moves i end line = line.status ≡ RespStatus.ok → (i < line.next) × (line.next ≤ end)

scan_line-Moves :
    (begin i previous end : ℕ) (rest : Bytes)
    → i + length rest ≤ end
    → Moves i end (scan_line begin i previous rest)
unfolding scan_line
scan_line-Moves begin i previous end [] h = λ e. cc e
scan_line-Moves begin i previous end (ch ∷ rest) h = elim (Bool-cases (ch == 10)) [
  | inl feed ↦ elim (Bool-cases (i == begin || not (previous == 13))) [
    | inl bare ↦ rw (feed, bare, scan_line) (λ e. cc e)
    | inr ends ↦ rw (feed, ends, scan_line) (λ e. (omega arith, omega arith))
  ]
  | inr other ↦
      rw (other, scan_line)
        (λ e.
          let (a, b) = scan_line-Moves begin (i + 1) ch end rest (omega arith) e in
          (omega arith, omega arith))
]

read_line-Moves : (input : Bytes) (begin : ℕ) → Moves begin (length input) (read_line input begin)
unfolding read_line
read_line-Moves input begin = elim (Bool-cases (ltb (length input) begin)) [
  | inl past ↦ rw (past, read_line) (λ e. cc e)
  | inr inside ↦
      rw (inside, read_line)
        (scan_line-Moves begin begin 0 (length input) (drop begin input)
          (omega (arith, length-drop begin input, not_past inside)))
]
  where
    not_past : {a b : ℕ} → ltb a b ≡ false → b ≤ a
    not_past {a} {b} e = ground arith

if-both {ℓ κ} :
    {A : Type ℓ} (P : A → Type κ) (b : Bool) (x y : A)
    → (b ≡ true → P x)
    → (b ≡ false → P y)
    → P (if b then x else y)
if-both P true x y p q = p refl
if-both P false x y p q = q refl

module _ (input : Bytes) (at : ℕ) where
  -- What a call that starts at `at` consumes: some of the input that is left, or nothing.
  pub record Advances (p : Parsed) : Type 0 where
    pub within : p.result.consumed ≤ length input
    pub moved : p.result.status ≡ RespStatus.ok → at < p.result.consumed

  module _ (target : ℕ) (scratch : List RespValue) (next_free : ℕ) where
    stop :
        (status : RespStatus) (message : String)
        → status ≢ RespStatus.ok
        → Advances (refuse input target scratch next_free status message)
    stop status message h = record { within = omega arith; moved = λ e. absurd (h e) }

    read_to :
        (value : RespValue) (next : ℕ)
        → at < next
        → next ≤ length input
        → Advances (fill input target scratch next_free value next)
    read_to value next h k = record { within = k; moved = λ _. h }

    on_line-Advances :
        (line : LineResult) (p : Parsed)
        → (line.status ≡ RespStatus.ok → Advances p)
        → Advances (on_line input target scratch next_free line p)
    on_line-Advances line p h = go line.status refl
      where
        go :
            (s : RespStatus)
            → line.status ≡ s
            → Advances (on_line input target scratch next_free line p)
        go RespStatus.ok e = rw e (h e)
        go RespStatus.need_more e = rw e (stop RespStatus.need_more line.error (λ q. cc q))
        go RespStatus.error e = rw e (stop RespStatus.error line.error (λ q. cc q))
        go RespStatus.no_memory e = rw e (stop RespStatus.no_memory line.error (λ q. cc q))

    on_number-Advances :
        (line : LineResult) (message : String) (read : ℤ → Parsed)
        → (line.status ≡ RespStatus.ok → (n : ℤ) → Advances (read n))
        → Advances (on_number input target scratch next_free line message read)
    on_number-Advances line message read h = on_line-Advances line _ (λ ok.
        go ok (
          parse_signed_number (view_bytes input (record { begin = line.begin; size = line.size }))))
      where
        go :
            line.status ≡ RespStatus.ok
            → (o : Option ℤ)
            → Advances (elim o [
              | none ↦ refuse input target scratch next_free RespStatus.error message
              | some number ↦ read number
            ])
        go ok none = stop RespStatus.error message (λ q. cc q)
        go ok (some n) = h ok n

    parse_payload-Advances :
        (limits : RespLimits) (next bulk_size : ℕ)
        → at < next
        → next ≤ length input
        → length input < 2 ^ 64
        → Advances (parse_payload input target scratch next_free limits next bulk_size)
    unfolding parse_payload
    parse_payload-Advances limits next bulk_size after within fits =
        if-both Advances (ltb limits.max_bulk_bytes bulk_size) _ _
          (λ _. stop RespStatus.error _ (λ q. cc q))
          (λ _.
            if-both Advances (ltb (sub_size (length input) next) bulk_size) _ _
              (λ _. stop RespStatus.need_more _ (λ q. cc q))
              (λ payload.
                if-both Advances (ltb (sub_size (length input) (next + bulk_size)) 2) _ _
                  (λ _. stop RespStatus.need_more _ (λ q. cc q))
                  (λ trailer.
                    if-both Advances
                      (not (byte_is input (next + bulk_size) 13)
                        || not (byte_is input (next + bulk_size + 1) 10))
                      _ _ (λ _. stop RespStatus.error _ (λ q. cc q))
                      (λ _.
                        read_to _ _ (omega arith)
                          (room (length input) next bulk_size within fits payload trailer)))))
      where
        le_of : (a b : ℕ) → ltb a b ≡ false → b ≤ a
        le_of a b e = ground arith

        room :
            (n next size : ℕ)
            → next ≤ n
            → n < 2 ^ 64
            → ltb (sub_size n next) size ≡ false
            → ltb (sub_size n (next + size)) 2 ≡ false
            → next + size + 2 ≤ n
        room n next size h k p t =
            let a = le_of (sub_size n next) size p in
            let b = le_of (sub_size n (next + size)) 2 t in omega (arith, a, b)

    parse_bulk-Advances :
        (limits : RespLimits) (line : LineResult)
        → Moves at (length input) line
        → length input < 2 ^ 64
        → Advances (parse_bulk input target scratch next_free limits line)
    unfolding parse_bulk
    parse_bulk-Advances limits line moves fits = on_number-Advances line _ _ (λ ok n.
        if-both Advances (is_minus_one n) _ _ (λ _. read_to _ _ (moves ok).0 (moves ok).1)
          (λ _.
            if-both Advances (not (fits_size n)) _ _ (λ _. stop RespStatus.error _ (λ q. cc q))
              (λ _.
                parse_payload-Advances limits line.next (to_size n) (moves ok).0 (moves ok).1
                  fits)))

    parse_array-Advances :
        (limits : RespLimits) (capacity : ℕ) (line : LineResult)
        → Moves at (length input) line
        → Advances (parse_array input target scratch next_free limits capacity line)
    unfolding parse_array parse_cells
    parse_array-Advances limits capacity line moves = on_number-Advances line _ _ (λ ok n.
        if-both Advances (is_minus_one n) _ _ (λ _. read_to _ _ (moves ok).0 (moves ok).1)
          (λ _.
            if-both Advances (not (fits_size n)) _ _ (λ _. stop RespStatus.error _ (λ q. cc q))
              (λ _.
                if-both Advances (ltb limits.max_array_elements (to_size n)) _ _
                  (λ _. stop RespStatus.error _ (λ q. cc q))
                  (λ _.
                    if-both Advances (ltb (sub_size capacity next_free) (to_size n)) _ _
                      (λ _. stop RespStatus.no_memory _ (λ q. cc q))
                      (λ _.
                        if-both Advances (to_size n == 0) _ _
                          (λ _. read_to _ _ (moves ok).0 (moves ok).1)
                          (λ _. record { within = (moves ok).1; moved = λ _. (moves ok).0 }))))))

    parse_text-Advances :
        (kind : RespType) (line : LineResult)
        → Moves at (length input) line
        → Advances (parse_text input target scratch next_free kind line)
    unfolding parse_text
    parse_text-Advances kind line moves =
        on_line-Advances line _ (λ ok. read_to _ _ (moves ok).0 (moves ok).1)

    parse_integer-Advances :
        (line : LineResult)
        → Moves at (length input) line
        → Advances (parse_integer input target scratch next_free line)
    unfolding parse_integer
    parse_integer-Advances line moves =
        on_number-Advances line _ _ (λ ok n. read_to _ _ (moves ok).0 (moves ok).1)

  line_behind : Moves at (length input) (read_line input (at + 1))
  line_behind e = let (a, b) = read_line-Moves input (at + 1) e in (omega (arith, a), b)

  pub parse_value_at-Advances :
      (target : ℕ) (scratch : List RespValue) (capacity next_free : ℕ) (limits : RespLimits)
      (depth : ℕ)
      → length input < 2 ^ 64
      → Advances (parse_value_at input at target scratch capacity next_free limits depth)
  unfolding parse_value_at
  parse_value_at-Advances target scratch capacity next_free limits depth fits =
      go (get_elem? input at) refl
    where
      cells : List RespValue
      cells = set scratch target reset_value

      go :
          (o : Option ℕ)
          → get_elem? input at ≡ o
          → Advances (parse_value_at input at target scratch capacity next_free limits depth)
      go none e =
          rw (e, parse_value_at) (stop target scratch next_free RespStatus.need_more "" (λ q. cc q))
      go (some prefix) e =
          rw (e, parse_value_at)
            (if-both Advances (prefix == b'+') _ _
              (λ _. parse_text-Advances target cells next_free RespType.simple_string _ line_behind)
              (λ _.
                if-both Advances (prefix == b'-') _ _
                  (λ _. parse_text-Advances target cells next_free RespType.error _ line_behind)
                  (λ _.
                    if-both Advances (prefix == b':') _ _
                      (λ _. parse_integer-Advances target cells next_free _ line_behind)
                      (λ _.
                        if-both Advances (prefix == b'$') _ _
                          (λ _.
                            parse_bulk-Advances target cells next_free limits _ line_behind fits)
                          (λ _.
                            if-both Advances (prefix == b'*') _ _
                              (λ _.
                                if-both Advances
                                  (ltb (min limits.max_depth max_parser_depth) (depth + 1)) _ _
                                  (λ _. stop target cells next_free RespStatus.error _ (λ q. cc q))
                                  (λ _.
                                    parse_array-Advances target cells next_free limits capacity _
                                      line_behind))
                              (λ _. stop target cells next_free RespStatus.error _ (λ q. cc q)))))))
