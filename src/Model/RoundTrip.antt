-- ===== src/Model/RoundTrip.antt =====
-- flask_xxljob/model/: a request survives its own JSON object.
use flask_xxljob.Base.{◌≡◌, refl, text_eq, List, [], ◌∷◌, Text, text}
use flask_xxljob.Model.Value.{Fields, field, no_fields}
use flask_xxljob.Model.Coerce.{parsed, coerce_int, coerce_str}
use flask_xxljob.Model.Request.{
  TriggerRequest, IdleBeatRequest, KillRequest, LogRequest, RegistryRequest, CallbackRequest,
  trigger_from_wire, trigger_to_wire, idle_beat_from_wire, idle_beat_to_wire, kill_from_wire,
  kill_to_wire, log_from_wire, log_to_wire, registry_from_wire, registry_to_wire,
  callback_from_wire, callback_to_wire,
}

pub trigger_round_trip : (t : TriggerRequest) → trigger_from_wire (trigger_to_wire t) ≡ parsed t
unfolding trigger_from_wire trigger_to_wire coerce_int coerce_str text_eq
trigger_round_trip t = refl

pub idle_beat_round_trip :
    (i : IdleBeatRequest) → idle_beat_from_wire (idle_beat_to_wire i) ≡ parsed i
unfolding idle_beat_from_wire idle_beat_to_wire coerce_int text_eq
idle_beat_round_trip i = refl

pub kill_round_trip : (k : KillRequest) → kill_from_wire (kill_to_wire k) ≡ parsed k
unfolding kill_from_wire kill_to_wire coerce_int text_eq
kill_round_trip k = refl

pub log_round_trip : (l : LogRequest) → log_from_wire (log_to_wire l) ≡ parsed l
unfolding log_from_wire log_to_wire coerce_int text_eq
log_round_trip l = refl

registry_round_trip : (r : RegistryRequest) → registry_from_wire (registry_to_wire r) ≡ parsed r
unfolding registry_from_wire registry_to_wire coerce_str text_eq
registry_round_trip r = refl

callback_round_trip : (c : CallbackRequest) → callback_from_wire (callback_to_wire c) ≡ parsed c
unfolding callback_from_wire callback_to_wire coerce_int coerce_str text_eq
callback_round_trip c = refl

-- The names of a JSON object, in order.
abbrev pub keys : Fields → List Text
keys no_fields = []
keys (field k v d) = k ∷ keys d

-- The names that the protocol of XXL-JOB gives the fields of its requests.
abbrev pub trigger_names : List Text
trigger_names =
    text "jobId"
    ∷ text "executorHandler"
    ∷ text "executorParams"
    ∷ text "executorBlockStrategy"
    ∷ text "executorTimeout"
    ∷ text "logId"
    ∷ text "logDateTime"
    ∷ text "glueType"
    ∷ text "glueSource"
    ∷ text "glueUpdatetime"
    ∷ text "broadcastIndex"
    ∷ text "broadcastTotal"
    ∷ []

abbrev pub idle_beat_names : List Text
idle_beat_names = text "jobId" ∷ []

abbrev pub kill_names : List Text
kill_names = text "jobId" ∷ []

abbrev pub log_names : List Text
log_names = text "logDateTim" ∷ text "logId" ∷ text "fromLineNum" ∷ []

abbrev pub registry_names : List Text
registry_names = text "registryGroup" ∷ text "registryKey" ∷ text "registryValue" ∷ []

abbrev pub callback_names : List Text
callback_names = text "logId" ∷ text "logDateTim" ∷ text "handleCode" ∷ text "handleMsg" ∷ []

-- `from_wire` reads back what `to_wire` has written, for each of the six requests of the protocol,
-- whatever integers and texts it holds; and what is written has exactly the names of the protocol,
-- each once, also where XXL-JOB spells them `glueUpdatetime` and `logDateTim`.
pub from_wire-to_wire :
    (t : TriggerRequest) (i : IdleBeatRequest) (k : KillRequest) (l : LogRequest)
    (r : RegistryRequest) (c : CallbackRequest)
    → (trigger_from_wire (trigger_to_wire t) ≡ parsed t)
      × (keys (trigger_to_wire t) ≡ trigger_names)
      × (idle_beat_from_wire (idle_beat_to_wire i) ≡ parsed i)
      × (keys (idle_beat_to_wire i) ≡ idle_beat_names)
      × (kill_from_wire (kill_to_wire k) ≡ parsed k)
      × (keys (kill_to_wire k) ≡ kill_names)
      × (log_from_wire (log_to_wire l) ≡ parsed l)
      × (keys (log_to_wire l) ≡ log_names)
      × (registry_from_wire (registry_to_wire r) ≡ parsed r)
      × (keys (registry_to_wire r) ≡ registry_names)
      × (callback_from_wire (callback_to_wire c) ≡ parsed c)
      × (keys (callback_to_wire c) ≡ callback_names)
unfolding trigger_to_wire idle_beat_to_wire kill_to_wire log_to_wire registry_to_wire
    callback_to_wire
from_wire-to_wire t i k l r c = (
  trigger_round_trip t,
  refl,
  idle_beat_round_trip i,
  refl,
  kill_round_trip k,
  refl,
  log_round_trip l,
  refl,
  registry_round_trip r,
  refl,
  callback_round_trip c,
  refl,
)
