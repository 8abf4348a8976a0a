-- ===== src/Resp/Number/RoundTrip.antt =====
-- The digits that are printed, and what is read from them.
use cpp_util.Util.{
  ℕ, zero, suc, ◌+◌, ◌*◌, ◌/◌, ◌%◌, ◌^◌, ◌≤◌, ◌<◌, ◌≡◌, refl, true, false, some, [], ◌∷◌, ◌++◌,
  ◌==◌, arith, Bool-cases, inl, inr, All, All-append, All-imp, append_assoc, append-nil, ap, sym,
  subst, ◌∙◌, ==_iff, ◌⊎◌,
}
use cpp_util.Util.Int.{ℤ, pos, negsuc}
use cpp_util.Resp.Types.{Bytes, int64_max}
use cpp_util.Resp.Number.{
  scan_digits, negate, parse_signed_number, emit_digits, unsigned_digits, signed_digits,
  magnitude_of, fits_size,
}

abbrev pub IsDigit : ℕ → Type 0
IsDigit ch = (b'0' ≤ ch) × (ch ≤ b'9')

scan_step :
    (limit value : ℕ) (out : Bytes)
    → value ≤ limit
    → limit ≤ 9223372036854775808
    → scan_digits limit ((b'0' + value % 10) ∷ out) (value / 10) ≡ scan_digits limit out value
unfolding scan_digits
scan_step limit value out h k = ground arith

ten_pow : ℕ → ℕ
ten_pow zero = 1
ten_pow (suc n) = 10 * ten_pow n

room_left : (room value : ℕ) → 0 < value / 10 → value < ten_pow (suc room) → 0 < room
unfolding ten_pow
room_left zero value p h = absurd (omega arith)
room_left (suc room) value p h = omega arith

emit_digits_lem :
    (room value : ℕ) (out : Bytes)
    → value < ten_pow room
    → 0 < room
    → (ds : Bytes) × (d : ℕ) × (emit_digits room value out ≡ some (d ∷ (ds ++ out)))
      × IsDigit d
      × All IsDigit ds
      × ((limit : ℕ)
          → value ≤ limit
          → limit ≤ 9223372036854775808
          → scan_digits limit (d ∷ (ds ++ out)) 0 ≡ scan_digits limit out value)
unfolding emit_digits ten_pow
emit_digits_lem zero value out h p = absurd (omega arith)
emit_digits_lem (suc room) value out h p = elim (Bool-cases (value / 10 == 0)) [
  | inl last ↦ (
    [],
    b'0' + value % 10,
    rw (last, emit_digits) refl,
    (omega arith, omega arith),
    tt,
    λ limit fits bound.
        subst
          (λ (n : ℕ). scan_digits limit ((b'0' + value % 10) ∷ out) n ≡ scan_digits limit out value)
          ((==_iff (value / 10) 0).0 last) (scan_step limit value out fits bound),
  )
  | inr more ↦
      let c = b'0' + value % 10 in
      let low : 0 < value / 10 = ground arith in
      let (ds, d, e, is_digit, are_digits, scanned) =
        emit_digits_lem room (value / 10) (c ∷ out) (omega arith) (room_left room value low h) in
      (
        ds ++ c ∷ [],
        d,
        rw (more, e, emit_digits)
            (ap (λ (t : Bytes). some (d ∷ t)) (sym (append_assoc ds (c ∷ []) out))),
        is_digit,
        All-append IsDigit ds (c ∷ []) are_digits ((omega arith, omega arith), tt),
        λ limit fits bound.
            ap (λ (t : Bytes). scan_digits limit (d ∷ t) 0) (append_assoc ds (c ∷ []) out)
            ∙ scanned limit (omega arith) bound
            ∙ scan_step limit value out fits bound,
      )
]

-- A number of 64 bits has 20 digits at most.
ten_pow_31 : (n : ℕ) → n < 2 ^ 64 → n < ten_pow 31
unfolding ten_pow
ten_pow_31 n h = omega arith

ten_pow_32 : (n : ℕ) → n < 2 ^ 64 → n < ten_pow 32
unfolding ten_pow
ten_pow_32 n h = omega arith

-- The printed digits: at least one, all digits, and read back as the number.
pub unsigned_digits_lem :
    (n : ℕ)
    → n < 2 ^ 64
    → (d : ℕ) × (ds : Bytes) × (unsigned_digits n ≡ some (d ∷ ds))
      × IsDigit d
      × All IsDigit ds
      × ((limit : ℕ)
          → n ≤ limit
          → limit ≤ 9223372036854775808
          → scan_digits limit (d ∷ ds) 0 ≡ some n)
unfolding unsigned_digits
unsigned_digits_lem n h =
    let (ds, d, e, is_digit, are_digits, scanned) =
      emit_digits_lem 32 n [] (ten_pow_32 n h) (omega arith) in
    (
      d,
      ds,
      e ∙ ap (λ (t : Bytes). some (d ∷ t)) (append-nil ds),
      is_digit,
      are_digits,
      λ limit fits bound.
          ap (λ (t : Bytes). scan_digits limit (d ∷ t) 0) (sym (append-nil ds))
          ∙ scanned limit fits bound
          ∙ unfold scan_digits in refl,
    )

-- An `int64_t`.
abbrev pub IsInt64 : ℤ → Type 0
IsInt64 (pos n) = n ≤ int64_max
IsInt64 (negsuc n) = n ≤ int64_max

-- A length that is printed is read back as itself.
pub parse_signed_number-unsigned :
    (n : ℕ)
    → n ≤ int64_max
    → (ds : Bytes) × (unsigned_digits n ≡ some ds)
      × (parse_signed_number ds ≡ some (pos n))
      × All IsDigit ds
unfolding parse_signed_number
parse_signed_number-unsigned n h =
    let (d, ds, e, is_digit, are_digits, scanned) = unsigned_digits_lem n (omega arith) in
    let plus : (d == b'-') ≡ false = ground arith in
    (
      d ∷ ds,
      e,
      rw (plus, scanned int64_max h (omega arith), parse_signed_number) refl,
      (is_digit, are_digits),
    )

-- Every `int64_t`, the least one included, is printed by `AppendSignedInteger` within its 32
-- bytes, as digits and signs only, and `ParseSignedNumber` reads the print back as the same
-- number.
pub parse_signed_number-signed :
    (v : ℤ)
    → IsInt64 v
    → (ds : Bytes) × (signed_digits v ≡ some ds)
      × (parse_signed_number ds ≡ some v)
      × All (λ b. (b ≡ b'-') ⊎ IsDigit b) ds
unfolding signed_digits unsigned_digits magnitude_of parse_signed_number
parse_signed_number-signed (pos n) h =
    let (ds, e, parsed, are_digits) = parse_signed_number-unsigned n h in
    (ds, e, parsed, All-imp IsDigit (λ b. (b ≡ b'-') ⊎ IsDigit b) (λ b p. inr p) ds are_digits)
parse_signed_number-signed (negsuc n) h =
    let (ds, d, e, is_digit, are_digits, scanned) =
      emit_digits_lem 31 (n + 1) [] (ten_pow_31 (n + 1) (omega arith)) (omega arith) in
    let read : scan_digits 9223372036854775808 (d ∷ (ds ++ [])) 0 ≡ some (n + 1) =
      scanned 9223372036854775808 (omega arith) (omega arith) ∙ unfold scan_digits in refl in
    (
      b'-' ∷ d ∷ (ds ++ []),
      rw (e, signed_digits) refl,
      rw (read, parse_signed_number) (unfold negate in ground arith),
      (
        inl refl,
        (
          inr is_digit,
          All-imp IsDigit (λ b. (b ≡ b'-') ⊎ IsDigit b) (λ b p. inr p) (ds ++ [])
              (All-append IsDigit ds [] are_digits tt),
        ),
      ),
    )

pub fits_size_lem : (n : ℕ) → n ≤ int64_max → fits_size (pos n) ≡ true
unfolding fits_size
fits_size_lem n h = ground arith
