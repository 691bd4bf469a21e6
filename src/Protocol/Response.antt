-- ===== src/Protocol/Response.antt =====
-- flask_xxljob/response/: the answers to the Admin.
use flask_xxljob.Base.{ℤ, pos, Bool, Option, none, some, Text, text}
use flask_xxljob.Model.Value.{Value, Fields, field, no_fields, null, int, str, bool}

-- `XXLJobResponse`
pub record XxlJobResponse : Type 0 where
  pub code : ℤ
  pub msg : Option Text
  pub content : Value

abbrev pub success_code : ℤ
success_code = pos 200

abbrev pub fail_code : ℤ
fail_code = pos 500

-- `XXLJobResponse.success`, `XXLJobResponse.failure`
abbrev pub success : Option Text → Value → XxlJobResponse
success msg content = record { code = success_code; msg = msg; content = content }

abbrev pub failure : Text → XxlJobResponse
failure msg = record { code = fail_code; msg = some msg; content = null }

abbrev pub of_option : Option Text → Value
of_option none = null
of_option (some s) = str s

-- `XXLJobResponse.to_dict`
unfoldable pub to_dict : XxlJobResponse → Fields
to_dict r =
    field (text "code") (int r.code)
      (field (text "msg") (of_option r.msg) (field (text "content") r.content no_fields))

-- `LogResponse`
pub record LogResponse : Type 0 where
  pub from_line_num : ℤ
  pub to_line_num : ℤ
  pub log_content : Text
  pub is_end : Bool

-- `LogResponse.to_wire`
unfoldable pub log_response_to_wire : LogResponse → Fields
log_response_to_wire r = field (text "fromLineNum") (int r.from_line_num) (
    field (text "toLineNum") (int r.to_line_num) (
      field (text "logContent") (str r.log_content)
        (field (text "isEnd") (bool r.is_end) no_fields)))
