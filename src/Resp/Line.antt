-- ===== src/Resp/Line.antt =====
-- `ReadLine`, and the bytes of a view.
pub mod Laws
use cpp_util.Util.{
  ℕ, suc, ◌+◌, ◌-◌, ◌==◌, Bool, true, false, ◌||◌, not, List, [], ◌∷◌, length, ltb, take, drop,
  if◌then◌else◌,
}
use cpp_util.Resp.Types.{Bytes, View, RespStatus, LineResult}

-- `input[i]` and `std::string_view(input.data() + begin, size)`.
abbrev pub view_bytes : Bytes → View → Bytes
view_bytes input view = take view.size (drop view.begin input)

-- The loop. Its list is the input from `i` on, and `previous` is `input[i - 1]` where `i != begin`.
unfoldable pub scan_line : ℕ → ℕ → ℕ → Bytes → LineResult
scan_line begin i previous [] = record {
  status = RespStatus.need_more;
  begin = begin;
  size = 0;
  next = i;
  error = "";
}
scan_line begin i previous (ch ∷ rest) = elim (ch == 10) [
  | true ↦ elim (i == begin || not (previous == 13)) [
    | true ↦ record {
      status = RespStatus.error;
      begin = begin;
      size = 0;
      next = i + 1;
      error = "expected CRLF";
    }
    | false ↦ record {
      status = RespStatus.ok;
      begin = begin;
      size = i - begin - 1;
      next = i + 1;
      error = "";
    }
  ]
  | false ↦ scan_line begin (i + 1) ch rest
]

unfoldable pub read_line : Bytes → ℕ → LineResult
read_line input begin = elim (ltb (length input) begin) [
  | true ↦ record {
    status = RespStatus.need_more;
    begin = begin;
    size = 0;
    next = begin;
    error = "";
  }
  | false ↦ scan_line begin begin 0 (drop begin input)
]
