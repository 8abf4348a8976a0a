-- ===== src/Resp/Unpack.antt =====
-- `UnpackOne`: one value with all its elements, by a stack of frames.
pub mod Total
use mathlib.Core.Option
use cpp_util.Util.{
  ℕ, zero, suc, ◌+◌, ◌==◌, true, false, Option, none, some, List, [], ◌∷◌, length, ltb, get_elem?,
  if◌then◌else◌,
}
use cpp_util.Resp.Types.{
  Bytes, RespType, RespValue, RespLimits, RespStatus, RespResult, Frame, make_result,
  max_parser_depth,
}
use cpp_util.Resp.Parse.{Parsed, parse_value_at}

-- The limits that a caller gets by default.
abbrev pub default_limits : RespLimits
default_limits = record {
  max_bulk_bytes = 18446744073709551615;
  max_array_elements = 18446744073709551615;
  max_depth = 128;
}

-- What the inner loop comes to: no frame is left, or `current` is a further element.
pub data Advance : Type 0 where
  finished : Advance
  element : ℕ → List Frame → Advance

-- The inner loop: the top of the stack is the list's head.
unfoldable pub advance : List Frame → Advance
advance [] = finished
advance (frame ∷ frames) = elim (ltb (frame.index + 1) frame.count) [
  | true ↦
      element (frame.elements + (frame.index + 1))
        (record frame { index = frame.index + 1 } ∷ frames)
  | false ↦ advance frames
]

-- What a call returns: its result, and the scratch buffer as it leaves it.
pub record Unpacked : Type 0 where
  pub result : RespResult
  pub scratch : List RespValue

-- The frame of the array in a cell, if it has elements.
abbrev pub array_frame : Option RespValue → Option Frame
array_frame none = none
array_frame (some value) = elim value.kind [
  | RespType.array ↦
      if ltb 0 value.element_count
      then Option.map (λ first. record { elements = first; count = value.element_count; index = 0 })
          value.elements
      else none
  | _ ↦ none
]

-- The rest of a round of the outer loop: what the parsed value is, and whether a further round is to
-- fill another cell.
unfoldable pub after_value :
    Parsed → ℕ → List Frame → (ℕ → List Frame → Option Unpacked) → Option Unpacked
after_value parsed current frames again = elim parsed.result.status [
  | RespStatus.ok ↦ elim (array_frame (get_elem? parsed.scratch current)) [
    | some frame ↦ elim (length frames == max_parser_depth) [
      | true ↦ some (record {
        result = make_result RespStatus.error 0 none "array depth limit";
        scratch = parsed.scratch;
      })
      | false ↦ again frame.elements (frame ∷ frames)
    ]
    | none ↦ elim (advance frames) [
      | finished ↦ some (record {
        result = make_result RespStatus.ok parsed.result.consumed (some 0) "";
        scratch = parsed.scratch;
      })
      | element next frames' ↦ again next frames'
    ]
  ]
  | _ ↦ some (record { result = parsed.result; scratch = parsed.scratch })
]

module _ (input : Bytes) (capacity : ℕ) (limits : RespLimits) where
  -- The outer loop. `none` is fuel that ran out; every round reads a byte at least.
  unfoldable pub unpack_loop : ℕ → ℕ → ℕ → List RespValue → ℕ → List Frame → Option Unpacked
  unpack_loop zero at current scratch next_free frames = none
  unpack_loop (suc fuel) at current scratch next_free frames =
      let parsed =
        parse_value_at input at current scratch capacity next_free limits (length frames) in
      after_value parsed current frames (λ next frames'.
        unpack_loop fuel parsed.result.consumed next parsed.scratch parsed.next_free frames')

-- `UnpackOne`. The scratch buffer is a list of `scratch_capacity` cells.
unfoldable pub unpack_one : Bytes → List RespValue → RespLimits → Option Unpacked
unpack_one input scratch limits =
    if length scratch == 0
    then some (record {
      result = make_result RespStatus.no_memory 0 none "scratch is empty";
      scratch = scratch;
    })
    else unpack_loop input (length scratch) limits (length input + 1) 0 0 scratch 1 []
