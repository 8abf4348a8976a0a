-- ===== src/Resp/Pack/Size.antt =====
-- The bytes that `PackCommand` reserves, against those that it appends.
use mathlib.Core.Option.{some-injective}
use cpp_util.Util.{
  ℕ, zero, suc, ◌+◌, ◌/◌, ◌%◌, ◌^◌, ◌≤◌, ◌<◌, ◌≡◌, ◌==◌, refl, true, false, some, List, [], ◌∷◌,
  ◌++◌, arith, Bool-cases, inl, inr, ◌⊎◌, ltb, All, length, length-append,
}
use cpp_util.Resp.Types.{Bytes}
use cpp_util.Resp.Number.{emit_digits, unsigned_digits, decimal_length}
use cpp_util.Resp.Number.RoundTrip.{unsigned_digits_lem}
use cpp_util.Resp.Pack.{
  crlf, pack_bulk_string, pack_array_header, pack_bulk_strings, pack_command, reserve_args,
  additional,
}

-- The two loops over the digits run side by side.
emit_digits-size :
    (room value : ℕ) (out ds : Bytes)
    → emit_digits room value out ≡ some ds
    → length ds ≡ decimal_length room value (length out + 1)
unfolding emit_digits decimal_length
emit_digits-size zero value out ds e = cc e
emit_digits-size (suc room) value out ds e = elim (Bool-cases (ltb value 10)) [
  | inl last ↦
      let stop : (value / 10 == 0) ≡ true = ground arith in
      let same : ((b'0' + value % 10) ∷ out) ≡ ds =
        some-injective _ _ (rw (← e, stop, emit_digits) refl) in
      rw (last, decimal_length, ← same) (omega arith)
  | inr more ↦
      let go : (value / 10 == 0) ≡ false = ground arith in
      let longer : length ((b'0' + value % 10) ∷ out) ≡ length out + 1 = omega arith in
      rw (more, decimal_length, ← longer)
        (emit_digits-size room (value / 10) ((b'0' + value % 10) ∷ out) ds
          (rw (← e, go, emit_digits) refl))
]

printed_size :
    (n : ℕ)
    → n < 2 ^ 64
    → (ds : Bytes) × (unsigned_digits n ≡ some ds) × (length ds ≡ decimal_length 32 n 1)
printed_size n h =
    let (d, ds, e, is_digit, are_digits, scanned) = unsigned_digits_lem n h in
    (d ∷ ds, e, emit_digits-size 32 n [] (d ∷ ds) (unfold unsigned_digits in e))

bulk_size :
    (arg out : Bytes)
    → length arg < 2 ^ 64
    → (out' : Bytes) × (pack_bulk_string arg out ≡ some out')
      × (length out' ≡ length out + (1 + decimal_length 32 (length arg) 1 + 2 + length arg + 2))
unfolding pack_bulk_string
bulk_size arg out h =
    let (ds, e, same) = printed_size (length arg) h in
    (
      out ++ b'$' ∷ (ds ++ (crlf ++ (arg ++ crlf))),
      rw (e, pack_bulk_string) refl,
      omega (
        arith,
        same,
        length-append out (b'$' ∷ (ds ++ (crlf ++ (arg ++ crlf)))),
        length-append ds (crlf ++ (arg ++ crlf)),
        length-append arg crlf,
      ),
    )

abbrev IsSmall : Bytes → Type 0
IsSmall arg = length arg < 2 ^ 64

-- `base` is what the output held before the call.
bulks_size :
    (args : List Bytes) (out : Bytes) (base acc : ℕ)
    → All IsSmall args
    → length out ≡ base + acc
    → (out' : Bytes) × (pack_bulk_strings args out ≡ some out')
      × (length out ≤ length out')
      × (length out' < 2 ^ 64 → length out' ≡ base + reserve_args args acc)
unfolding pack_bulk_strings reserve_args
bulks_size [] out base acc small e = (out, refl, omega arith, λ fits. e)
bulks_size (arg ∷ args) out base acc small e =
    let step = 1 + decimal_length 32 (length arg) 1 + 2 + length arg + 2 in
    let (out1, e1, same1) = bulk_size arg out small.0 in
    let (out2, e2, le2, same2) =
      bulks_size args out1 base (acc + step) small.1 (omega (arith, e, same1)) in
    (
      out2,
      rw (e1, pack_bulk_strings) e2,
      omega (arith, same1, le2),
      λ fits.
          let wrap : (acc + step) % 2 ^ 64 ≡ acc + step = omega (arith, fits, le2, same1, e) in
          rw wrap (same2 fits),
    )

-- For arguments of fewer than 2 ^ 64 bytes each, and fewer than 2 ^ 64 of them, `PackCommand`
-- prints every length within its buffer, and it appends exactly the number of bytes that it
-- reserved by `DecimalLength`, or the whole output has 2 ^ 64 bytes at least.
pub pack_command-additional :
    (args : List Bytes) (out : Bytes)
    → All IsSmall args
    → length args < 2 ^ 64
    → (out' : Bytes) × (pack_command args out ≡ some out')
      × ((length out' ≡ length out + additional args) ⊎ (2 ^ 64 ≤ length out'))
unfolding pack_command additional pack_array_header
pack_command-additional args out small fits =
    let (ds, e, same) = printed_size (length args) fits in
    let header = out ++ b'*' ∷ (ds ++ crlf) in
    let sized : length header ≡ length out + (1 + decimal_length 32 (length args) 1 + 2) =
      omega (arith, same, length-append out (b'*' ∷ (ds ++ crlf)), length-append ds crlf) in
    let (out', e', le', same') =
      bulks_size args header (length out) (1 + decimal_length 32 (length args) 1 + 2) small sized in
    (
      out',
      rw (e, pack_command, pack_array_header) e',
      (elim (split (length out') (2 ^ 64)) [
        | inl below ↦ inl (same' below)
        | inr above ↦ inr above
      ]),
    )
  where
    split : (a b : ℕ) → (a < b) ⊎ (b ≤ a)
    split a b = omega arith
