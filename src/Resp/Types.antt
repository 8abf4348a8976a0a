-- ===== src/Resp/Types.antt =====
-- The types of resp.h. Bytes are numbers below 256. A `std::string_view` into the input is its offset
-- and its length, and a pointer into the scratch buffer is an index.
use Prim.Native.String.{String}
use cpp_util.Util.{ℕ, List, Option}
use cpp_util.Util.Int.{ℤ}

abbrev pub Bytes : Type 0
Bytes = List ℕ

pub data RespType : Type 0 where
  simple_string error integer bulk_string null_bulk_string array null_array : RespType

pub record View : Type 0 where
  pub begin : ℕ
  pub size : ℕ

pub record RespValue : Type 0 where
  pub kind : RespType
  pub text : View
  pub integer : ℤ
  pub elements : Option ℕ
  pub element_count : ℕ

pub record RespLimits : Type 0 where
  pub max_bulk_bytes : ℕ
  pub max_array_elements : ℕ
  pub max_depth : ℕ

pub data RespStatus : Type 0 where
  ok need_more error no_memory : RespStatus

pub record RespResult : Type 0 where
  pub status : RespStatus
  pub consumed : ℕ
  pub value : Option ℕ
  pub error : String

pub record LineResult : Type 0 where
  pub status : RespStatus
  pub begin : ℕ
  pub size : ℕ
  pub next : ℕ
  pub error : String

pub record Frame : Type 0 where
  pub elements : ℕ
  pub count : ℕ
  pub index : ℕ

abbrev pub max_parser_depth : ℕ
max_parser_depth = 128

abbrev pub size_max : ℕ
size_max = 18446744073709551615

abbrev pub int64_max : ℕ
int64_max = 9223372036854775807

abbrev pub make_result : RespStatus → ℕ → Option ℕ → String → RespResult
make_result status consumed value message = record {
  status = status;
  consumed = consumed;
  value = value;
  error = message;
}
