-- ===== src/Client/Callback.antt =====
-- flask_xxljob/client/callback_client.py: `CallbackClient`. The Admin call is `post_to_admins`, a
-- parameter here as a function of the payload.
use flask_xxljob.Base.{
  ℕ, ℤ, pos, suc, ltb, Bool, true, false, Option, none, some, List, [], ◌∷◌, is_empty, length, take,
  Text, text, text_eq, if◌then◌else◌,
}
use flask_xxljob.Client.Result.{CallResult, local_failure, config}
use flask_xxljob.Model.Value.{
  Value, Values, Fields, lookup, no_values, value, null, int, str, object,
}
use flask_xxljob.Model.Coerce.{Parsed, parsed, refused, coerce_str, ParseError, type_name}
use flask_xxljob.Model.Request.{CallbackRequest, callback_to_wire}
pub mod Batch

-- An item of a batch: a CallbackRequest, whose attributes may hold any objects, a `dict`, or
-- another object.
pub record RawRequest : Type 0 where
  pub log_id : Value
  pub log_date_time : Value
  pub handle_code : Value
  pub handle_msg : Value

pub data Item : Type 0 where
  request : RawRequest → Item
  mapping : Fields → Item
  unsupported : Item

-- `XXLJobValidationError`, with the index of the item
pub data ValidationError : Type 0 where
  no_items : ValidationError
  too_many : ℕ → ℕ → ValidationError
  missing_key wrong_integer : ℕ → Text → ValidationError
  wrong_string : ℕ → ParseError → ValidationError
  wrong_item : ℕ → ValidationError

pub data Valid (A : Type 0) : Type 0 where
  valid : A → Valid A
  invalid : ValidationError → Valid A

infixl 20 ◌>>=◌
abbrev pub ◌>>=◌ : {A B : Type 0} → Valid A → (A → Valid B) → Valid B
valid a >>= f = f a
invalid e >>= f = invalid e

-- What the client reads of its configuration.
pub record CallbackConfig : Type 0 where
  pub enabled : Bool
  pub callback_batch_max_size : ℕ
  pub callback_message_max_length : ℕ

-- `_require_int`
unfoldable pub require_int : ℕ → Text → Value → Valid ℤ
require_int index name (int n) = valid n
require_int index name _ = invalid (wrong_integer index name)

abbrev pub of_parsed : ℕ → Parsed Text → Valid Text
of_parsed index (parsed s) = valid s
of_parsed index (refused e) = invalid (wrong_string index e)

-- `_require_str`
unfoldable pub require_str : ℕ → Text → Value → Valid Text
require_str index name v = of_parsed index (coerce_str v name [])

-- `item[key]`, and `item.get(key, default)`
abbrev pub find : Fields → Text → Option Value
find Fields.no_fields k = none
find (Fields.field h v d) k = if text_eq h k then some v else find d k

abbrev pub require_key : ℕ → Text → Fields → Valid Value
require_key index key d = elim (find d key) [
  | none ↦ invalid (missing_key index key)
  | some v ↦ valid v
]

abbrev pub get_or : Fields → Text → Value → Value
get_or d k default = elim (find d k) [ none ↦ default | some v ↦ v ]

-- `_normalize_item`, lines 176 to 196
unfoldable pub to_request : ℕ → Item → Valid RawRequest
to_request index (request r) = valid r
to_request index (mapping d) = do
  log_id ← require_key index (text "log_id") d
  log_date_time ← require_key index (text "log_date_time") d
  handle_msg ← require_str index (text "handle_msg") (lookup d (text "handle_msg"))
  valid (record {
    log_id = log_id;
    log_date_time = log_date_time;
    handle_code = get_or d (text "handle_code") (int (pos 200));
    handle_msg = str handle_msg;
  })
to_request index unsupported = invalid (wrong_item index)

-- `_normalize_item`; `message[:max_length]` of a text that is not longer is the text.
unfoldable pub normalize_item : CallbackConfig → ℕ → Item → Valid CallbackRequest
normalize_item c index item = do
  raw ← to_request index item
  log_id ← require_int index (text "log_id") raw.log_id
  log_date_time ← require_int index (text "log_date_time") raw.log_date_time
  handle_code ← require_int index (text "handle_code") raw.handle_code
  message ← require_str index (text "handle_msg") raw.handle_msg
  valid (record {
    log_id = log_id;
    log_date_time = log_date_time;
    handle_code = handle_code;
    handle_msg =
        if ltb c.callback_message_max_length (length message)
        then take c.callback_message_max_length message
        else message;
  })

unfoldable pub normalize : CallbackConfig → ℕ → List Item → Valid (List CallbackRequest)
normalize c index [] = valid []
normalize c index (item ∷ items) = do
  first ← normalize_item c index item
  rest ← normalize c (suc index) items
  valid (first ∷ rest)

abbrev pub payload : List CallbackRequest → Values
payload [] = no_values
payload (r ∷ rs) = value (object (callback_to_wire r)) (payload rs)

-- What a call has done: it sent a payload or not, and returned or raised.
pub data Sent : Type 0 where
  sent : Values → CallResult → Sent
  not_sent : CallResult → Sent
  raised : ValidationError → Sent

abbrev pub send : (Values → CallResult) → Valid (List CallbackRequest) → Sent
send post (valid rs) = sent (payload rs) (post (payload rs))
send post (invalid e) = raised e

-- `callback_many`
unfoldable pub callback_many : (Values → CallResult) → CallbackConfig → List Item → Sent
callback_many post c items =
    if c.enabled
    then (if is_empty items
        then raised no_items
        else if ltb c.callback_batch_max_size (length items)
        then raised (too_many (length items) c.callback_batch_max_size)
        else send post (normalize c 0 items))
    else not_sent (local_failure (text "Flask-XXLJob is disabled.") config)

-- `callback`: a `handle_msg` of `None` becomes the empty text.
abbrev pub or_empty : Value → Value
or_empty null = str []
or_empty v = v

unfoldable pub callback :
    (Values → CallResult) → CallbackConfig → Value → Value → Value → Value → Sent
callback post c log_id log_date_time handle_code handle_msg =
    if c.enabled
    then callback_many post c (
        request (record {
          log_id = log_id;
          log_date_time = log_date_time;
          handle_code = handle_code;
          handle_msg = or_empty handle_msg;
        })
        ∷ [])
    else not_sent (local_failure (text "Flask-XXLJob is disabled.") config)
