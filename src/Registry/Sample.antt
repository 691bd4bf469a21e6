-- ===== src/Registry/Sample.antt =====
-- A small process of the Registry service, for the tests.
use flask_xxljob.Base.{true, false, none, some, pos, text}
use flask_xxljob.Client.Result.{CallResult}
use flask_xxljob.Registry.State.{Heap, Settings, Process}
use flask_xxljob.Registry.Steps.{new_process}
use flask_xxljob.Registry.Service.{returned, World}

abbrev pub settings : Settings
settings = record { enabled = true; valid = true; deregister_on_exit = true; redact = λ t. t }

abbrev pub heap : Heap
heap = record {
  next = 0;
  contexts = λ _. record {
    generation = 0;
    stop_event = false;
    thread = none;
    wait_remove_event = none;
    prepared_owner = none;
  };
  prepareds = λ _. record { context = 0; activate_event = false; thread = 0 };
  operations = λ _. record { generation = 0; done_event = false; thread = none; result = none };
  coordinations = λ _. record {
    generation = 0;
    inflight_count = 0;
    done_event = false;
    cleanup_requested = false;
  };
}

abbrev pub accepted : CallResult
accepted = record {
  success = true;
  code = some (pos 200);
  msg = none;
  address = some (text "http://admin");
  error = none;
  error_type = none;
  attempt_count = 1;
  elapsed_ms = some 3;
  http_status = some 200;
}

abbrev pub world : World
world = record {
  rpc = returned accepted;
  now = text "2026-01-01T00:00:00+00:00";
  alive = λ t. true;
  actor_start = none;
  worker_start = true;
}

abbrev pub fresh : Process
fresh = new_process settings heap 7
