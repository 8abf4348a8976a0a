-- ===== src/Resp/Line/Laws.antt =====
-- Where `ReadLine` finds the end of a line, and what it does at the end of the input.
use cpp_util.Util.{
  ℕ, ◌+◌, ◌-◌, ◌≤◌, ◌≡◌, ◌≢◌, false, [], ◌∷◌, ◌++◌, length, ltb, All, arith, drop-length,
  length-append, le→ltb, ap, subst, ◌∙◌,
}
use cpp_util.Resp.Types.{Bytes, RespStatus, LineResult}
use cpp_util.Resp.Line.{scan_line, read_line}

-- A line without a line feed in it.
abbrev pub IsLine : Bytes → Type 0
IsLine = All (λ b. b ≢ 10)

abbrev pub found : ℕ → ℕ → ℕ → LineResult
found begin size next = record {
  status = RespStatus.ok;
  begin = begin;
  size = size;
  next = next;
  error = "";
}

scan_line_lem :
    (begin i previous : ℕ) (text rest : Bytes)
    → begin ≤ i
    → IsLine text
    → scan_line begin i previous (text ++ 13 ∷ 10 ∷ rest)
      ≡ found begin (i + length text - begin) (i + length text + 2)
unfolding scan_line
scan_line_lem begin i previous [] rest h l = ground arith
scan_line_lem begin i previous (b ∷ text) rest h l =
    ground (arith, scan_line_lem begin (i + 1) b text rest (omega arith) l.1)

at_length :
    (pre text rest : Bytes)
    → IsLine text
    → read_line (pre ++ (text ++ 13 ∷ 10 ∷ rest)) (length pre)
      ≡ found (length pre) (length text) (length pre + length text + 2)
unfolding read_line
at_length pre text rest l =
    let inside : ltb (length (pre ++ (text ++ 13 ∷ 10 ∷ rest))) (length pre) ≡ false =
      le→ltb _ _ (omega (arith, length-append pre (text ++ 13 ∷ 10 ∷ rest))) in
    rw (inside, drop-length, read_line)
      (scan_line_lem (length pre) (length pre) 0 text rest (omega arith) l
        ∙ ap (λ (n : ℕ). found (length pre) n (length pre + length text + 2)) (omega arith))

-- A line that ends in CR LF is found whole.
pub read_line_lem :
    (pre text rest : Bytes) (begin : ℕ)
    → length pre ≡ begin
    → IsLine text
    → read_line (pre ++ (text ++ 13 ∷ 10 ∷ rest)) begin
      ≡ found begin (length text) (begin + length text + 2)
read_line_lem pre text rest begin e l =
    subst
      (λ (b : ℕ).
        read_line (pre ++ (text ++ 13 ∷ 10 ∷ rest)) b ≡ found b (length text) (b + length text + 2))
      e (at_length pre text rest l)
