-- ===== src/Protocol/Tests.antt =====
-- flask_xxljob/protocol/: a request of two bytes, which stand for the JSON of a trigger.
use flask_xxljob.Base.{
  ℕ, pos, ◌+◌, ◌≤◌, ◌≡◌, refl, none, some, List, [], ◌∷◌, length, take, text, text_eq, strip,
  length-take, arith, ◌==◌, if◌then◌else◌,
}
use flask_xxljob.Base.Dict
use flask_xxljob.Base.Dict.{text_key}
use flask_xxljob.Model.Value.{object}
use flask_xxljob.Model.Request.{
  TriggerRequest, KillRequest, IdleBeatRequest, LogRequest, trigger_to_wire, kill_to_wire,
  idle_beat_to_wire, log_to_wire,
}
use flask_xxljob.Callback.{get_run}
use flask_xxljob.Protocol.Response.{success, failure}
use flask_xxljob.Protocol.Parser.{
  Loaded, loaded, not_loaded, read_chunks, read_limited_body, check_access_token,
}
use flask_xxljob.Protocol.Parser.Bounds.{read_limited_body-bound}
use flask_xxljob.Protocol.Blueprint.{
  Outcome, Runtime, Request, raised, returned, unsupported, dispatch, dispatch_log, reads_body,
  calls_back, access_token_error, beat, run, idle_beat, kill, log,
}
use flask_xxljob.Protocol.Blueprint.Answers.{Carries, wrong_token, run-delivers, endpoints-deliver}

-- The stream is what is left of the body; a read of a closed connection returns nothing.
abbrev read : List ℕ → ℕ → List ℕ × List ℕ
read s n = (take n s, [])

read-bounded : (s : List ℕ) (n : ℕ) → length (read s n).0 ≤ n
read-bounded s n = omega (arith, length-take n s)

abbrev trigger : TriggerRequest
trigger = record {
  job_id = pos 1;
  executor_handler = text "demo";
  executor_params = text "x";
  executor_block_strategy = [];
  executor_timeout = pos 0;
  log_id = pos 9;
  log_date_time = pos 0;
  glue_type = text "BEAN";
  glue_source = [];
  glue_update_time = pos 0;
  broadcast_index = pos 0;
  broadcast_total = pos 1;
}

abbrev kill_request : KillRequest
kill_request = record { job_id = pos 1 }

abbrev idle_beat_request : IdleBeatRequest
idle_beat_request = record { job_id = pos 1 }

abbrev log_request : LogRequest
log_request = record { log_date_time = pos 0; log_id = pos 9; from_line_num = pos 1 }

-- The first byte says which request the body stands for.
abbrev loads : List ℕ → Loaded
loads [] = not_loaded (text "JSONDecodeError")
loads (b ∷ _) =
    if b == 0
    then loaded (object (kill_to_wire kill_request))
    else if b == 1
    then loaded (object (idle_beat_to_wire idle_beat_request))
    else if b == 2
    then loaded (object (log_to_wire log_request))
    else loaded (object (trigger_to_wire trigger))

abbrev on_run : TriggerRequest → Outcome
on_run t = returned (success none (object (trigger_to_wire t)))

abbrev on_kill : KillRequest → Outcome
on_kill k = raised

abbrev on_idle_beat : IdleBeatRequest → Outcome
on_idle_beat i = unsupported

abbrev on_log : LogRequest → Outcome
on_log l = raised

abbrev runtime : Runtime
runtime = record {
  access_token = text "secret";
  max_request_size = 4;
  max_param_length = 3;
  callback_registry = record {
    run = (text "demo", on_run) ∷ [];
    idle_beat = some on_idle_beat;
    kill = some on_kill;
    log = some on_log;
  };
}

abbrev request : Request (List ℕ)
request = record { token = some (text "secret"); content_length = some 2; stream = 123 ∷ 125 ∷ [] }

abbrev forged : Request (List ℕ)
forged = record request { token = some (text "guess") }

abbrev two_bytes : List ℕ
two_bytes = 123 ∷ 125 ∷ []

read_limited_body-bound_example :
    (length two_bytes ≤ 4) × (two_bytes ≡ read_chunks read 9 two_bytes (4 + 1))
unfolding read_limited_body read_chunks
read_limited_body-bound_example =
    read_limited_body-bound read two_bytes (some 2) 4 9 two_bytes refl (omega arith)

wrong_token_example :
    (beat read loads runtime forged ≡ ([], failure access_token_error))
    × (run read loads runtime forged ≡ ([], failure access_token_error))
    × (idle_beat read loads runtime forged ≡ ([], failure access_token_error))
    × (kill read loads runtime forged ≡ ([], failure access_token_error))
    × (log read loads runtime forged ≡ ([], failure access_token_error))
unfolding check_access_token strip text_eq
wrong_token_example = wrong_token read loads runtime forged refl

abbrev sends : ℕ → Request (List ℕ)
sends b = record request { stream = b ∷ 125 ∷ [] }

abbrev body_of : ℕ → List ℕ
body_of b = b ∷ 125 ∷ []

request-Carries : Carries read loads runtime request (trigger_to_wire trigger)
unfolding check_access_token strip text_eq read_limited_body read_chunks
request-Carries = record {
  token = refl;
  raw = body_of 123;
  received = refl;
  size = omega arith;
  first = refl;
  content = refl;
}

kill-Carries : Carries read loads runtime (sends 0) (kill_to_wire kill_request)
unfolding check_access_token strip text_eq read_limited_body read_chunks
kill-Carries = record {
  token = refl;
  raw = body_of 0;
  received = refl;
  size = omega arith;
  first = refl;
  content = refl;
}

idle_beat-Carries : Carries read loads runtime (sends 1) (idle_beat_to_wire idle_beat_request)
unfolding check_access_token strip text_eq read_limited_body read_chunks
idle_beat-Carries = record {
  token = refl;
  raw = body_of 1;
  received = refl;
  size = omega arith;
  first = refl;
  content = refl;
}

log-Carries : Carries read loads runtime (sends 2) (log_to_wire log_request)
unfolding check_access_token strip text_eq read_limited_body read_chunks
log-Carries = record {
  token = refl;
  raw = body_of 2;
  received = refl;
  size = omega arith;
  first = refl;
  content = refl;
}

run-delivers_example :
    run read loads runtime request
    ≡ (reads_body ∷ calls_back ∷ [], dispatch (on_run trigger) (text "run"))
unfolding get_run Dict.get text_eq
run-delivers_example =
    run-delivers read loads runtime request trigger on_run request-Carries (omega arith) refl

endpoints-deliver_example :
    (kill read loads runtime (sends 0)
      ≡ (reads_body ∷ calls_back ∷ [], dispatch (on_kill kill_request) (text "kill")))
    × (idle_beat read loads runtime (sends 1) ≡ (
      reads_body ∷ calls_back ∷ [],
      dispatch (on_idle_beat idle_beat_request) (text "idleBeat"),
    ))
    × (log read loads runtime (sends 2)
        ≡ (reads_body ∷ calls_back ∷ [], dispatch_log (on_log log_request)))
endpoints-deliver_example =
    endpoints-deliver read loads runtime (sends 0) (sends 1) (sends 2) kill_request
      idle_beat_request log_request on_kill on_idle_beat on_log refl refl refl kill-Carries
      idle_beat-Carries log-Carries
