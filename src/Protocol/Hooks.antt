-- ===== src/Protocol/Hooks.antt =====
-- flask_xxljob/protocol/blueprint.py: the answers to errors of routing and of the endpoints. An
-- HTTPException has a code, and a name or none.
use flask_xxljob.Base.{
  ℕ, ◌==◌, ◌&&◌, ◌||◌, ◌≡◌, refl, Option, none, some, any, ◌++◌, is_empty, Text, text, text_eq,
  if◌then◌else◌,
}
use flask_xxljob.Protocol.Response.{XxlJobResponse, failure}
use flask_xxljob.Extension.Application.{executor_paths}

pub record HttpException : Type 0 where
  pub code : ℕ
  pub name : Option Text

-- `exc.name or "error"`
abbrev pub name_or_error : Option Text → Text
name_or_error none = text "error"
name_or_error (some name) = if is_empty name then text "error" else name

-- `_handle_protocol_routing_error`: an answer, or `None` to go on
unfoldable pub handle_protocol_routing_error :
    Text → Text → Option HttpException → Option XxlJobResponse
handle_protocol_routing_error url_prefix path none = none
handle_protocol_routing_error url_prefix path (some exc) =
    if (exc.code == 404 || exc.code == 405) && any (text_eq path) (executor_paths url_prefix)
    then some (failure (text "XXL-JOB request error: " ++ name_or_error exc.name))
    else none

-- `f"{exc.name}"`
abbrev pub show_name : Option Text → Text
show_name none = text "None"
show_name (some name) = name

-- `_handle_http_exception`, `_handle_unexpected`
abbrev pub handle_http_exception : HttpException → XxlJobResponse
handle_http_exception exc = failure (text "XXL-JOB request error: " ++ show_name exc.name)

abbrev pub handle_unexpected : XxlJobResponse
handle_unexpected = failure (text "XXL-JOB internal protocol error")

method_not_allowed :
    handle_protocol_routing_error
      (text "/job")
      (text "/job/run")
      (some (record { code = 405; name = some (text "Method Not Allowed") }))
    ≡ some (failure (text "XXL-JOB request error: Method Not Allowed"))
unfolding handle_protocol_routing_error executor_paths text_eq
method_not_allowed = refl

other_path :
    handle_protocol_routing_error
      (text "/job")
      (text "/run")
      (some (record { code = 404; name = none }))
    ≡ none
unfolding handle_protocol_routing_error executor_paths text_eq
other_path = refl
