-- ===== src/Model/Params.antt =====
-- flask_xxljob/utils/json_utils.py: `try_parse_json`, and `TriggerRequest.parse_params`. `json.loads`
-- of a text is a parameter: a value, or `none` for a ValueError.
use flask_xxljob.Base.{
  ◌≡◌, refl, Option, none, some, is_empty, is_space, Text, text, strip, if◌then◌else◌,
}
use flask_xxljob.Model.Value.{Value, null, str}
use flask_xxljob.Model.Request.{TriggerRequest}

abbrev pub or_text : Text → Option Value → Value
or_text s none = str s
or_text s (some v) = v

module _ (loads : Text → Option Value) where
  -- `try_parse_json` of a text
  unfoldable pub try_parse_json : Text → Value
  try_parse_json s = if is_empty (strip s) then null else or_text s (loads s)

  -- `parse_params`
  unfoldable pub parse_params : TriggerRequest → Value
  unfolding try_parse_json
  parse_params r = try_parse_json r.executor_params

not_json : try_parse_json (λ s. none) (text "a,b") ≡ str (text "a,b")
unfolding try_parse_json strip is_space
not_json = refl
