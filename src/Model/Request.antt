-- ===== src/Model/Request.antt =====
-- flask_xxljob/model/: the requests of the protocol and their JSON objects.
use flask_xxljob.Base.{ℤ, pos, [], Text, text}
use flask_xxljob.Model.Value.{Value, Fields, field, no_fields, lookup, int, str}
use flask_xxljob.Model.Coerce.{Parsed, parsed, ◌>>=◌, coerce_int, coerce_str}

-- The default of `coerce_int`.
abbrev pub zero_int : ℤ
zero_int = pos 0

-- `REGISTRY_GROUP_EXECUTOR`
abbrev pub registry_group_executor : Text
registry_group_executor = text "EXECUTOR"

-- `TriggerRequest`
pub record TriggerRequest : Type 0 where
  pub job_id : ℤ
  pub executor_handler : Text
  pub executor_params : Text
  pub executor_block_strategy : Text
  pub executor_timeout : ℤ
  pub log_id : ℤ
  pub log_date_time : ℤ
  pub glue_type : Text
  pub glue_source : Text
  pub glue_update_time : ℤ
  pub broadcast_index : ℤ
  pub broadcast_total : ℤ

-- `TriggerRequest.from_wire`
unfoldable pub trigger_from_wire : Fields → Parsed TriggerRequest
trigger_from_wire d = do
  job_id ← coerce_int (lookup d (text "jobId")) (text "jobId") zero_int
  executor_handler ← coerce_str (lookup d (text "executorHandler")) (text "executorHandler") []
  executor_params ← coerce_str (lookup d (text "executorParams")) (text "executorParams") []
  executor_block_strategy ←
      coerce_str (lookup d (text "executorBlockStrategy")) (text "executorBlockStrategy") []
  executor_timeout ←
      coerce_int (lookup d (text "executorTimeout")) (text "executorTimeout") zero_int
  log_id ← coerce_int (lookup d (text "logId")) (text "logId") zero_int
  log_date_time ← coerce_int (lookup d (text "logDateTime")) (text "logDateTime") zero_int
  glue_type ← coerce_str (lookup d (text "glueType")) (text "glueType") []
  glue_source ← coerce_str (lookup d (text "glueSource")) (text "glueSource") []
  glue_update_time ← coerce_int (lookup d (text "glueUpdatetime")) (text "glueUpdatetime") zero_int
  broadcast_index ← coerce_int (lookup d (text "broadcastIndex")) (text "broadcastIndex") zero_int
  broadcast_total ← coerce_int (lookup d (text "broadcastTotal")) (text "broadcastTotal") zero_int
  parsed (record {
    job_id = job_id;
    executor_handler = executor_handler;
    executor_params = executor_params;
    executor_block_strategy = executor_block_strategy;
    executor_timeout = executor_timeout;
    log_id = log_id;
    log_date_time = log_date_time;
    glue_type = glue_type;
    glue_source = glue_source;
    glue_update_time = glue_update_time;
    broadcast_index = broadcast_index;
    broadcast_total = broadcast_total;
  })

-- `TriggerRequest.to_wire`
unfoldable pub trigger_to_wire : TriggerRequest → Fields
trigger_to_wire r = field (text "jobId") (int r.job_id) (
    field (text "executorHandler") (str r.executor_handler) (
      field (text "executorParams") (str r.executor_params) (
        field (text "executorBlockStrategy") (str r.executor_block_strategy) (
          field (text "executorTimeout") (int r.executor_timeout) (
            field (text "logId") (int r.log_id) (
              field (text "logDateTime") (int r.log_date_time) (
                field (text "glueType") (str r.glue_type) (
                  field (text "glueSource") (str r.glue_source) (
                    field (text "glueUpdatetime") (int r.glue_update_time) (
                      field (text "broadcastIndex") (int r.broadcast_index) (
                        field (text "broadcastTotal") (int r.broadcast_total) (no_fields))))))))))))

-- `IdleBeatRequest`
pub record IdleBeatRequest : Type 0 where
  pub job_id : ℤ

-- `IdleBeatRequest.from_wire`
unfoldable pub idle_beat_from_wire : Fields → Parsed IdleBeatRequest
idle_beat_from_wire d = do
  job_id ← coerce_int (lookup d (text "jobId")) (text "jobId") zero_int
  parsed (record { job_id = job_id })

-- `IdleBeatRequest.to_wire`
unfoldable pub idle_beat_to_wire : IdleBeatRequest → Fields
idle_beat_to_wire r = field (text "jobId") (int r.job_id) (no_fields)

-- `KillRequest`
pub record KillRequest : Type 0 where
  pub job_id : ℤ

-- `KillRequest.from_wire`
unfoldable pub kill_from_wire : Fields → Parsed KillRequest
kill_from_wire d = do
  job_id ← coerce_int (lookup d (text "jobId")) (text "jobId") zero_int
  parsed (record { job_id = job_id })

-- `KillRequest.to_wire`
unfoldable pub kill_to_wire : KillRequest → Fields
kill_to_wire r = field (text "jobId") (int r.job_id) (no_fields)

-- `LogRequest`
pub record LogRequest : Type 0 where
  pub log_date_time : ℤ
  pub log_id : ℤ
  pub from_line_num : ℤ

-- `LogRequest.from_wire`
unfoldable pub log_from_wire : Fields → Parsed LogRequest
log_from_wire d = do
  log_date_time ← coerce_int (lookup d (text "logDateTim")) (text "logDateTim") zero_int
  log_id ← coerce_int (lookup d (text "logId")) (text "logId") zero_int
  from_line_num ← coerce_int (lookup d (text "fromLineNum")) (text "fromLineNum") zero_int
  parsed (record { log_date_time = log_date_time; log_id = log_id; from_line_num = from_line_num })

-- `LogRequest.to_wire`
unfoldable pub log_to_wire : LogRequest → Fields
log_to_wire r = field (text "logDateTim") (int r.log_date_time) (
    field (text "logId") (int r.log_id)
      (field (text "fromLineNum") (int r.from_line_num) (no_fields)))

-- `RegistryRequest`
pub record RegistryRequest : Type 0 where
  pub registry_group : Text
  pub registry_key : Text
  pub registry_value : Text

-- `RegistryRequest.from_wire`
unfoldable pub registry_from_wire : Fields → Parsed RegistryRequest
registry_from_wire d = do
  registry_group ←
      coerce_str (lookup d (text "registryGroup")) (text "registryGroup") registry_group_executor
  registry_key ← coerce_str (lookup d (text "registryKey")) (text "registryKey") []
  registry_value ← coerce_str (lookup d (text "registryValue")) (text "registryValue") []
  parsed (record {
    registry_group = registry_group;
    registry_key = registry_key;
    registry_value = registry_value;
  })

-- `RegistryRequest.to_wire`
unfoldable pub registry_to_wire : RegistryRequest → Fields
registry_to_wire r = field (text "registryGroup") (str r.registry_group) (
    field (text "registryKey") (str r.registry_key)
      (field (text "registryValue") (str r.registry_value) (no_fields)))

-- `CallbackRequest`
pub record CallbackRequest : Type 0 where
  pub log_id : ℤ
  pub log_date_time : ℤ
  pub handle_code : ℤ
  pub handle_msg : Text

-- `CallbackRequest.from_wire`
unfoldable pub callback_from_wire : Fields → Parsed CallbackRequest
callback_from_wire d = do
  log_id ← coerce_int (lookup d (text "logId")) (text "logId") zero_int
  log_date_time ← coerce_int (lookup d (text "logDateTim")) (text "logDateTim") zero_int
  handle_code ← coerce_int (lookup d (text "handleCode")) (text "handleCode") zero_int
  handle_msg ← coerce_str (lookup d (text "handleMsg")) (text "handleMsg") []
  parsed (record {
    log_id = log_id;
    log_date_time = log_date_time;
    handle_code = handle_code;
    handle_msg = handle_msg;
  })

-- `CallbackRequest.to_wire`
unfoldable pub callback_to_wire : CallbackRequest → Fields
callback_to_wire r = field (text "logId") (int r.log_id) (
    field (text "logDateTim") (int r.log_date_time) (
      field (text "handleCode") (int r.handle_code)
        (field (text "handleMsg") (str r.handle_msg) (no_fields))))

-- `RegistryRequest.for_executor`
unfoldable pub for_executor : Value → Value → Parsed RegistryRequest
for_executor app_name address = do
  key ← coerce_str app_name (text "registryKey") []
  value ← coerce_str address (text "registryValue") []
  parsed (record {
    registry_group = registry_group_executor;
    registry_key = key;
    registry_value = value;
  })
