-- ===== src/Client/Tests.antt =====
-- flask_xxljob/client/: calls of two Admins.
use flask_xxljob.Base.{
  ℕ, pos, ◌+◌, ◌++◌, ◌*◌, ◌≤◌, ◌≡◌, refl, true, false, some, List, [], ◌∷◌, length, suc, Text, text,
  text_eq, inl, if◌then◌else◌, ◌==◌,
}
use flask_xxljob.Client.Result.{CallResult, local_failure, config}
use flask_xxljob.Client.Policy.{AdminCallPolicy}
use flask_xxljob.Client.Post.{
  Reply, timed_out, response, Transport, try_address, post_to_admins, join_url, should_failover,
  request, read_reply, is_retryable, try_all,
}
use flask_xxljob.Client.Post.Attempts.{
  IsOneOf, IsAccepted, post_to_admins-bound, post_to_admins-accepted,
}
use flask_xxljob.Client.Post.Failover.{IsSilent, Accepts, post_to_admins-reaches}
use flask_xxljob.Client.Callback.{
  Item, CallbackConfig, payload, callback_many, normalize, normalize_item, to_request, require_int,
  require_str,
}
use flask_xxljob.Client.Callback.Batch.{IsNormalized, callback_many-whole}
use flask_xxljob.Model.Coerce.{coerce_str}
use flask_xxljob.Model.Value.{Values, field, no_fields, int, str, object}
use flask_xxljob.Model.Request.{CallbackRequest}

abbrev policy : AdminCallPolicy
policy = record {
  retry_count = 1;
  failover_on_http_error = true;
  failover_on_invalid_json = false;
  failover_on_business_error = false;
}

abbrev accepted : Reply
accepted = response 200 (some (object (field (text "code") (int (pos 200)) no_fields)))

-- The first Admin is down, the second accepts.
abbrev transport : Transport
transport = record {
  post = λ n url. if n == 3 then accepted else timed_out (text "Timeout: 1");
  elapsed_ms = λ n. n;
}

abbrev down : Transport
down = record { post = λ n url. timed_out (text "Timeout: 1"); elapsed_ms = λ n. n }

abbrev show : ℕ → Text
show n = 48 ∷ []

abbrev addresses : List Text
addresses = text "http://a" ∷ text "http://b" ∷ []

post_to_admins-bound_example :
    (post_to_admins transport show (text "/api/registry") policy addresses).attempt_count
    ≤ length addresses * suc policy.retry_count
post_to_admins-bound_example =
    post_to_admins-bound transport show (text "/api/registry") policy addresses

post_to_admins-accepted_example :
    (address : Text) × IsOneOf address addresses
    × ((post_to_admins transport show (text "/api/registry") policy addresses).address
        ≡ some address)
    × IsAccepted (
        transport.post
          (post_to_admins transport show (text "/api/registry") policy addresses).attempt_count
          (join_url address (text "/api/registry")))
unfolding post_to_admins try_all try_address is_retryable request read_reply should_failover text_eq
post_to_admins-accepted_example =
    post_to_admins-accepted transport show (text "/api/registry") policy addresses refl

-- Only the Admin at `http://b` answers.
abbrev one_up : Transport
one_up = record {
  post = λ n url.
      if text_eq url (text "http://b/api/registry")
      then accepted
      else timed_out (text "Timeout: 1");
  elapsed_ms = λ n. n;
}

a-IsSilent : IsSilent one_up show (text "api/registry") policy (text "http://a")
unfolding join_url text_eq
a-IsSilent n = (text "Timeout: 1", inl refl)

b-Accepts : Accepts one_up show (text "api/registry") policy (text "http://b")
unfolding join_url text_eq
b-Accepts n = (field (text "code") (int (pos 200)) no_fields, refl, refl, inl refl)

abbrev reached : CallResult
reached =
    post_to_admins one_up show (text "api/registry") policy
      ((text "http://a" ∷ []) ++ (text "http://b" ∷ text "http://c" ∷ []))

post_to_admins-reaches_example :
    (reached.success ≡ true)
    × (reached.address ≡ some (text "http://b"))
    × (reached.attempt_count ≡ length (text "http://a" ∷ []) * suc policy.retry_count + 1)
post_to_admins-reaches_example =
    post_to_admins-reaches one_up show (text "api/registry") policy (text "http://a" ∷ [])
      (text "http://c" ∷ []) (text "http://b") (a-IsSilent, tt) b-Accepts

abbrev up : Transport
up = record { post = λ n url. accepted; elapsed_ms = λ n. n }

abbrev callback_config : CallbackConfig
callback_config = record {
  enabled = true;
  callback_batch_max_size = 2;
  callback_message_max_length = 2;
}

abbrev items : List Item
items =
    Item.request (record {
      log_id = int (pos 7);
      log_date_time = int (pos 8);
      handle_code = int (pos 200);
      handle_msg = str (text "done");
    })
    ∷ []

abbrev requests : List CallbackRequest
requests =
    record { log_id = pos 7; log_date_time = pos 8; handle_code = pos 200; handle_msg = text "do" }
    ∷ []

abbrev post : Values → CallResult
post p = local_failure (text "no admin address configured") config

callback_many-whole_example :
    (rs : List CallbackRequest) × (payload requests ≡ payload rs)
    × IsNormalized callback_config 0 items rs
    × (length items ≤ 2)
    × (post (payload requests) ≡ post (payload requests))
unfolding callback_many normalize normalize_item to_request require_int require_str coerce_str
callback_many-whole_example =
    callback_many-whole post callback_config items (payload requests) (post (payload requests)) refl
