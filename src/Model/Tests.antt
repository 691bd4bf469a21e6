-- ===== src/Model/Tests.antt =====
-- flask_xxljob/model/: the laws at concrete values.
use flask_xxljob.Base.{pos, negsuc, ◌≡◌, refl, [], ◌∷◌, text, strip, arith}
use flask_xxljob.Model.Value.{str, float, finite}
use flask_xxljob.Model.Coerce.{parsed, coerce_int, read_digits}
use flask_xxljob.Model.Coerce.Laws.{coerce_int-render}
use flask_xxljob.Model.Request.{
  TriggerRequest, IdleBeatRequest, KillRequest, LogRequest, RegistryRequest, CallbackRequest,
  trigger_from_wire, trigger_to_wire, idle_beat_from_wire, idle_beat_to_wire, kill_from_wire,
  kill_to_wire, log_from_wire, log_to_wire, registry_from_wire, registry_to_wire,
  callback_from_wire, callback_to_wire,
}
use flask_xxljob.Model.RoundTrip.{
  from_wire-to_wire, keys, trigger_names, idle_beat_names, kill_names, log_names, registry_names,
  callback_names,
}

coerce_int-render_example : coerce_int (str (text "42")) (text "jobId") (pos 0) ≡ parsed (pos 42)
coerce_int-render_example =
    coerce_int-render 4 (2 ∷ []) (text "jobId") (pos 0) (omega arith, (omega arith, tt))
      (omega arith)

-- A sign, an underscore, Arabic digits and a float without a fraction are read too.
coerce_int_test :
    (coerce_int (str (text " -1_0\n")) (text "jobId") (pos 0) ≡ parsed (negsuc 9))
    × (coerce_int (str (0x661 ∷ 0x660 ∷ [])) (text "jobId") (pos 0) ≡ parsed (pos 10))
    × (coerce_int (float (finite (negsuc 5) 0 1)) (text "jobId") (pos 0) ≡ parsed (negsuc 2))
unfolding coerce_int strip read_digits
coerce_int_test = (refl, refl, refl)

abbrev trigger : TriggerRequest
trigger = record {
  job_id = pos 1;
  executor_handler = text "demo";
  executor_params = text "x";
  executor_block_strategy = text "SERIAL_EXECUTION";
  executor_timeout = pos 0;
  log_id = pos 9;
  log_date_time = pos 1700000000000;
  glue_type = text "BEAN";
  glue_source = [];
  glue_update_time = pos 0;
  broadcast_index = pos 0;
  broadcast_total = pos 1;
}

abbrev idle_beat : IdleBeatRequest
idle_beat = record { job_id = pos 1 }

abbrev kill : KillRequest
kill = record { job_id = negsuc 0 }

abbrev log : LogRequest
log = record { log_date_time = pos 5; log_id = pos 9; from_line_num = pos 1 }

abbrev registry : RegistryRequest
registry = record {
  registry_group = text "EXECUTOR";
  registry_key = text "app";
  registry_value = text "http://h";
}

abbrev callback : CallbackRequest
callback = record {
  log_id = pos 9;
  log_date_time = pos 5;
  handle_code = pos 200;
  handle_msg = text "done";
}

from_wire-to_wire_example :
    (trigger_from_wire (trigger_to_wire trigger) ≡ parsed trigger)
    × (keys (trigger_to_wire trigger) ≡ trigger_names)
    × (idle_beat_from_wire (idle_beat_to_wire idle_beat) ≡ parsed idle_beat)
    × (keys (idle_beat_to_wire idle_beat) ≡ idle_beat_names)
    × (kill_from_wire (kill_to_wire kill) ≡ parsed kill)
    × (keys (kill_to_wire kill) ≡ kill_names)
    × (log_from_wire (log_to_wire log) ≡ parsed log)
    × (keys (log_to_wire log) ≡ log_names)
    × (registry_from_wire (registry_to_wire registry) ≡ parsed registry)
    × (keys (registry_to_wire registry) ≡ registry_names)
    × (callback_from_wire (callback_to_wire callback) ≡ parsed callback)
    × (keys (callback_to_wire callback) ≡ callback_names)
from_wire-to_wire_example = from_wire-to_wire trigger idle_beat kill log registry callback
