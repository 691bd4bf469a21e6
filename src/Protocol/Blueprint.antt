-- ===== src/Protocol/Blueprint.antt =====
-- flask_xxljob/protocol/blueprint.py: the five endpoints. Logging has no effect on an answer.
use flask_xxljob.Base.{
  ℕ, ◌-◌, leb, Bool, true, false, not, ◌&&◌, Option, none, some, List, [], ◌∷◌, is_empty, length,
  take, ◌++◌, Text, text, strip, if◌then◌else◌,
}
use flask_xxljob.Model.Value.{Value, Fields, null, object}
use flask_xxljob.Model.Coerce.{Parsed, parsed, refused, error_text}
use flask_xxljob.Model.Request.{
  TriggerRequest, IdleBeatRequest, KillRequest, LogRequest, trigger_from_wire, idle_beat_from_wire,
  kill_from_wire, log_from_wire,
}
use flask_xxljob.Callback.{CallbackRegistry, get_run, has_run_callbacks}
use flask_xxljob.Protocol.Response.{
  XxlJobResponse, success, failure, LogResponse, log_response_to_wire,
}
use flask_xxljob.Protocol.Parser.{
  Body, body, rejected, Loaded, read_limited_body, parse_json_object, parse_error_text,
  check_param_length, check_access_token,
}
pub mod Answers

-- What a user's callback does: it returns a response, a LogResponse or another object, or raises.
pub data Outcome : Type 0 where
  returned : XxlJobResponse → Outcome
  returned_log : LogResponse → Outcome
  unsupported raised : Outcome

abbrev pub Registry : Type 0
Registry =
    CallbackRegistry (TriggerRequest → Outcome) (IdleBeatRequest → Outcome) (KillRequest → Outcome)
      (LogRequest → Outcome)

-- What the endpoints read of a runtime.
pub record Runtime : Type 0 where
  pub access_token : Text
  pub max_request_size : ℕ
  pub max_param_length : ℕ
  pub callback_registry : Registry

-- A request, with its stream in the state `stream`.
pub record Request (S : Type 0) : Type 0 where
  pub token : Option Text
  pub content_length : Option ℕ
  pub stream : S

-- A value, or the answer that ends the endpoint.
pub data Step (A : Type 0) : Type 0 where
  go_on : A → Step A
  answer : XxlJobResponse → Step A

-- What an endpoint does beside its answer: it goes to read the body of the request, with
-- `read_limited_body`, or calls a callback of the user.
pub data Event : Type 0 where
  reads_body calls_back : Event

-- A step with the events of it, in order.
abbrev pub Action : Type 0 → Type 0
Action A = List Event × Step A

infixl 20 ◌>>=◌
abbrev pub ◌>>=◌ : {A B : Type 0} → Action A → (A → Action B) → Action B
(es, go_on a) >>= f = let (fs, b) = f a in (es ++ fs, b)
(es, answer r) >>= f = (es, answer r)

-- a step without an event
abbrev pub quiet : {A : Type 0} → Step A → Action A
quiet s = ([], s)

-- the call of a callback, and what is made of its outcome
abbrev pub calling : XxlJobResponse → Action XxlJobResponse
calling r = (calls_back ∷ [], go_on r)

-- The events of an endpoint that has run to its end, and its answer.
abbrev pub finish : Action XxlJobResponse → List Event × XxlJobResponse
finish (es, go_on r) = (es, r)
finish (es, answer r) = (es, r)

abbrev pub access_token_error : Text
access_token_error = text "The access token is wrong."

-- `_display_executor_handler`
abbrev pub max_handler_display_length : ℕ
max_handler_display_length = 128

unfoldable pub display_executor_handler : Text → Text
display_executor_handler handler =
    if is_empty (strip handler)
    then text "<empty>"
    else if leb (length handler) max_handler_display_length
    then handler
    else take (max_handler_display_length - 3) handler ++ text "..."

-- `_dispatch`, with `_coerce_response`
unfoldable pub dispatch : Outcome → Text → XxlJobResponse
dispatch (returned r) endpoint = r
dispatch raised endpoint =
    failure (text "XXL-JOB " ++ endpoint ++ text " callback execution failed")
dispatch _ endpoint =
    failure (text "XXL-JOB " ++ endpoint ++ text " callback returned an unsupported response type")

-- Lines 223 to 247: `/log` also takes a LogResponse.
unfoldable pub dispatch_log : Outcome → XxlJobResponse
dispatch_log (returned r) = r
dispatch_log (returned_log r) = success none (object (log_response_to_wire r))
dispatch_log unsupported =
    failure (text "XXL-JOB log callback returned an unsupported response type")
dispatch_log raised = failure (text "XXL-JOB log callback execution failed")

-- `_build_model`
unfoldable pub build_model : {A : Type 0} → Parsed A → Step A
build_model (parsed m) = go_on m
build_model (refused e) = answer (failure (text "invalid request field: " ++ error_text e))

abbrev pub or_answer : {A : Type 0} → Option A → Text → Step A
or_answer (some a) message = go_on a
or_answer none message = answer (failure message)

abbrev pub of_body : {A : Type 0} → Body A → Step A
of_body (body a) = go_on a
of_body (rejected e) = answer (failure (parse_error_text e))

abbrev pub stop_on : Option Text → Step Bool
stop_on none = go_on true
stop_on (some message) = answer (failure message)

abbrev pub guard : Bool → Text → Step Bool
guard true message = go_on true
guard false message = answer (failure message)

module _ {S : Type 0} (read : S → ℕ → List ℕ × S) (loads : List ℕ → Loaded) (rt : Runtime)
    (request : Request S) where
  -- `_token_ok`
  abbrev pub token_ok : Action Bool
  token_ok = quiet (guard (check_access_token rt.access_token request.token) access_token_error)

  abbrev pub parse_raw : Body (List ℕ) → Body Fields
  parse_raw (body raw) = parse_json_object loads raw rt.max_request_size
  parse_raw (rejected e) = rejected e

  -- `_parse_body`
  unfoldable pub parse_body : Action Fields
  parse_body = (
    reads_body ∷ [],
    of_body (
        parse_raw
          (read_limited_body read request.stream request.content_length rt.max_request_size)),
  )

  -- `beat`
  unfoldable pub beat : List Event × XxlJobResponse
  beat = finish (token_ok >>= λ _. quiet (go_on (success none null)))

  -- `run`
  unfoldable pub run : List Event × XxlJobResponse
  run = finish (do
    _ ← token_ok
    fields ← parse_body
    _ ← quiet (stop_on (check_param_length fields rt.max_param_length))
    model ← quiet (build_model (trigger_from_wire fields))
    _ ← quiet (
        guard (has_run_callbacks rt.callback_registry)
          (text "XXL-JOB run callback is not configured"))
    callback ← quiet (
        or_answer (get_run rt.callback_registry model.executor_handler)
          (text "Unsupported JobHandler: " ++ display_executor_handler model.executor_handler))
    calling (dispatch (callback model) (text "run")))

  -- `idle_beat`
  unfoldable pub idle_beat : List Event × XxlJobResponse
  idle_beat = finish (do
    _ ← token_ok
    callback ← quiet (
        or_answer rt.callback_registry.idle_beat
          (text "XXL-JOB idleBeat callback is not configured"))
    fields ← parse_body
    model ← quiet (build_model (idle_beat_from_wire fields))
    calling (dispatch (callback model) (text "idleBeat")))

  -- `kill`
  unfoldable pub kill : List Event × XxlJobResponse
  kill = finish (do
    _ ← token_ok
    callback ←
        quiet (or_answer rt.callback_registry.kill (text "XXL-JOB kill callback is not configured"))
    fields ← parse_body
    model ← quiet (build_model (kill_from_wire fields))
    calling (dispatch (callback model) (text "kill")))

  -- `log`
  unfoldable pub log : List Event × XxlJobResponse
  log = finish (do
    _ ← token_ok
    callback ←
        quiet (or_answer rt.callback_registry.log (text "XXL-JOB log callback is not configured"))
    fields ← parse_body
    model ← quiet (build_model (log_from_wire fields))
    calling (dispatch_log (callback model)))
