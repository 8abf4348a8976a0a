-- ===== src/Resp/Unpack/Total.antt =====
-- The fuel of the loop of `UnpackOne`, and how far a call reads.
use cpp_util.Util.{
  ℕ, zero, suc, ◌+◌, ◌^◌, ◌≤◌, ◌<◌, ◌≡◌, ◌==◌, refl, Option, none, some, List, [], ◌∷◌, arith,
  length, Bool-cases, Option-cases, inl, inr, get_elem?,
}
use cpp_util.Resp.Types.{Bytes, RespValue, RespLimits, RespStatus, Frame, max_parser_depth}
use cpp_util.Resp.Parse.{Parsed, parse_value_at}
use cpp_util.Resp.Parse.Progress.{Advances, parse_value_at-Advances}
use cpp_util.Resp.Unpack.{
  Unpacked, Advance, finished, element, advance, array_frame, after_value, unpack_loop, unpack_one,
}

-- It returns, and has consumed no more than the input.
abbrev Returns : Bytes → Option Unpacked → Type 0
Returns input o = (u : Unpacked) × (o ≡ some u) × (u.result.consumed ≤ length input)

after_value-Returns :
    (input : Bytes) (p : Parsed) (current : ℕ) (frames : List Frame)
    (again : ℕ → List Frame → Option Unpacked)
    → p.result.consumed ≤ length input
    → (p.result.status ≡ RespStatus.ok
        → (cell : ℕ) (frames' : List Frame) → Returns input (again cell frames'))
    → Returns input (after_value p current frames again)
unfolding after_value
after_value-Returns input p current frames again within h = go p.result.status refl
  where
    after_plain :
        p.result.status ≡ RespStatus.ok
        → (a : Advance) → advance frames ≡ a
        → array_frame (get_elem? p.scratch current) ≡ none
        → Returns input (after_value p current frames again)
    after_plain read finished e plain = rw (read, plain, e, after_value) (_, refl, within)
    after_plain read (element next frames') e plain =
        rw (read, plain, e, after_value) (h read next frames')

    go : (s : RespStatus) → p.result.status ≡ s → Returns input (after_value p current frames again)
    go RespStatus.ok read = elim (Option-cases (array_frame (get_elem? p.scratch current))) [
      | inl plain ↦ after_plain read (advance frames) refl plain
      | inr (frame, opened) ↦ elim (Bool-cases (length frames == max_parser_depth)) [
        | inl deep ↦ rw (read, opened, deep, after_value) (_, refl, omega arith)
        | inr shallow ↦
            rw (read, opened, shallow, after_value) (h read frame.elements (frame ∷ frames))
      ]
    ]
    go RespStatus.need_more e = rw (e, after_value) (_, refl, within)
    go RespStatus.error e = rw (e, after_value) (_, refl, within)
    go RespStatus.no_memory e = rw (e, after_value) (_, refl, within)

unpack_loop-Returns :
    (input : Bytes) (capacity : ℕ) (limits : RespLimits) (fuel at current : ℕ)
    (scratch : List RespValue) (next_free : ℕ) (frames : List Frame)
    → length input < 2 ^ 64
    → 0 < fuel
    → length input < fuel + at
    → Returns input (unpack_loop input capacity limits fuel at current scratch next_free frames)
unfolding unpack_loop
unpack_loop-Returns input capacity limits zero at current scratch next_free frames fits some_fuel
      enough =
    absurd (omega arith)
unpack_loop-Returns input capacity limits (suc fuel) at current scratch next_free frames fits
      some_fuel enough =
    let p = parse_value_at input at current scratch capacity next_free limits (length frames) in
    let step : Advances input at p =
      parse_value_at-Advances input at current scratch capacity next_free limits (length frames)
        fits in
    after_value-Returns input p current frames _ step.within (λ read cell frames'.
      unpack_loop-Returns input capacity limits fuel p.result.consumed cell p.scratch p.next_free
        frames' fits (omega (arith, step.moved read, step.within)) (omega (arith, step.moved read)))

-- On every input of fewer than 2 ^ 64 bytes, whatever the scratch buffer and the limits are,
-- `UnpackOne` returns: its loop ends within as many rounds as the input has bytes, plus one. The
-- result has consumed no more bytes than the input has.
pub unpack_one-Returns :
    (input : Bytes) (scratch : List RespValue) (limits : RespLimits)
    → length input < 2 ^ 64
    → (u : Unpacked) × (unpack_one input scratch limits ≡ some u)
      × (u.result.consumed ≤ length input)
unfolding unpack_one
unpack_one-Returns input scratch limits fits = elim (Bool-cases (length scratch == 0)) [
  | inl empty ↦ rw (empty, unpack_one) (_, refl, omega arith)
  | inr room ↦
      rw (room, unpack_one)
        (unpack_loop-Returns input (length scratch) limits (length input + 1) 0 0 scratch 1 [] fits
          (omega arith) (omega arith))
]
