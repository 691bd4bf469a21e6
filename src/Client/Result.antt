-- ===== src/Client/Result.antt =====
-- flask_xxljob/client/__init__.py: `CallResult` and the error categories.
use flask_xxljob.Base.{ℕ, ℤ, Bool, false, Option, none, some, Text}

-- The string constants `ERROR_*`, the two literals of the Registry service, and the names of
-- exception types.
pub data ErrorType : Type 0 where
  config network timeout http invalid_json invalid_response business : ErrorType
  lifecycle process : ErrorType
  exception : Text → ErrorType

pub record CallResult : Type 0 where
  pub success : Bool
  pub code : Option ℤ
  pub msg : Option Text
  pub address : Option Text
  pub error : Option Text
  pub error_type : Option ErrorType
  pub attempt_count : ℕ
  pub elapsed_ms : Option ℕ
  pub http_status : Option ℕ

-- `CallResult.message`
unfoldable pub message : CallResult → Option Text
message r = elim r.msg [ none ↦ r.error | some m ↦ some m ]

-- A result that the client makes without an answer: the dataclass defaults elsewhere.
abbrev pub local_failure : Text → ErrorType → CallResult
local_failure m t = record {
  success = false;
  code = none;
  msg = none;
  address = none;
  error = some m;
  error_type = some t;
  attempt_count = 0;
  elapsed_ms = none;
  http_status = none;
}
