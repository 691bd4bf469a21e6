-- ===== src/Protocol/Blueprint/Answers.antt =====
-- flask_xxljob/protocol/blueprint.py: what the endpoints answer.
use flask_xxljob.Base.{
  ℕ, ◌≤◌, ◌≡◌, refl, true, false, not, none, some, List, [], ◌∷◌, ltb, leb, is_empty, length,
  length-append, length-take, take, Text, text, text_eq, strip, inl, inr, Bool-cases, arith,
}
use flask_xxljob.Base.Dict
use flask_xxljob.Base.Dict.{Dict, text_key}
use flask_xxljob.Model.Value.{Fields, object}
use flask_xxljob.Model.Request.{
  TriggerRequest, KillRequest, LogRequest, IdleBeatRequest, trigger_to_wire, kill_to_wire,
  log_to_wire, idle_beat_to_wire,
}
use flask_xxljob.Model.RoundTrip.{
  trigger_round_trip, kill_round_trip, log_round_trip, idle_beat_round_trip,
}
use flask_xxljob.Callback.{get_run, has_run_callbacks}
use flask_xxljob.Protocol.Response.{failure}
use flask_xxljob.Protocol.Parser.{
  body, Loaded, loaded, read_limited_body, parse_json_object, check_param_length,
  check_access_token,
}
use flask_xxljob.Protocol.Blueprint.{
  reads_body, calls_back, Outcome, Registry, Runtime, Request, go_on, access_token_error,
  display_executor_handler, dispatch, dispatch_log, build_model, parse_body, beat, run, idle_beat,
  kill, log,
}

-- The name of an unknown JobHandler takes 128 characters of the answer at most, whatever the
-- request holds.
pub display_executor_handler-bound :
    (handler : Text) → length (display_executor_handler handler) ≤ 128
unfolding display_executor_handler
display_executor_handler-bound handler = elim (Bool-cases (is_empty (strip handler))) [
  | inl e ↦ rw e (omega arith)
  | inr e ↦ rw e (elim (Bool-cases (leb (length handler) 128)) [
    | inl short ↦ rw short (leb-sound short)
    | inr long ↦
        rw (long, length-append (take 125 handler) (text "..."), length-take 125 handler)
          (omega arith)
  ])
]
  where
    leb-sound : leb (length handler) 128 ≡ true → length handler ≤ 128
    leb-sound h = ground arith

module _ {S : Type 0} (read : S → ℕ → List ℕ × S) (loads : List ℕ → Loaded) (rt : Runtime)
    (request : Request S) where
  -- A request whose access token is refused reaches no callback, and its body is not read: each of
  -- the five endpoints gives the same failure, without an event.
  pub wrong_token :
      check_access_token rt.access_token request.token ≡ false
      → (beat read loads rt request ≡ ([], failure access_token_error))
        × (run read loads rt request ≡ ([], failure access_token_error))
        × (idle_beat read loads rt request ≡ ([], failure access_token_error))
        × (kill read loads rt request ≡ ([], failure access_token_error))
        × (log read loads rt request ≡ ([], failure access_token_error))
  unfolding beat run idle_beat kill log
  wrong_token h = rw h (refl, refl, refl, refl, refl)

  -- The request carries the JSON object `fields` within the size limit, and the right token.
  pub record Carries (fields : Fields) : Type 0 where
    pub token : check_access_token rt.access_token request.token ≡ true
    pub raw : List ℕ
    pub received :
        read_limited_body read request.stream request.content_length rt.max_request_size ≡ body raw
    pub size : length raw ≤ rt.max_request_size
    pub first : is_empty raw ≡ false
    pub content : loads raw ≡ loaded (object fields)

  parse_body-Carries :
      (fields : Fields)
      → Carries fields
      → parse_body read loads rt request ≡ (reads_body ∷ [], go_on fields)
  unfolding parse_body parse_json_object
  parse_body-Carries d c = rw (c.received, c.first, size_ok, c.content) refl
    where
      size_ok : ltb rt.max_request_size (length c.raw) ≡ false
      size_ok = ground (arith, c.size)

  has_run-get :
      (r : Registry) (s : Text) (f : TriggerRequest → Outcome)
      → get_run r s ≡ some f
      → has_run_callbacks r ≡ true
  unfolding get_run has_run_callbacks Dict.get
  has_run-get r s f h = nonempty r.run h
    where
      nonempty :
          (d : Dict Text (TriggerRequest → Outcome))
          → Dict.get d s ≡ some f
          → not (is_empty d) ≡ true
      nonempty [] e = absurd (ground arith)
      nonempty (x ∷ d) e = refl

  params_ok :
      (t : TriggerRequest)
      → length t.executor_params ≤ rt.max_param_length
      → check_param_length (trigger_to_wire t) rt.max_param_length ≡ none
  unfolding check_param_length trigger_to_wire text_eq
  params_ok t h = ground arith

  -- A trigger that the Admin sends with the right token and within the limits reaches the callback
  -- that is registered under its JobHandler name, with every field as sent, and is answered by what
  -- that callback does: the body is read, and that one callback is called.
  pub run-delivers :
      (t : TriggerRequest) (f : TriggerRequest → Outcome)
      → Carries (trigger_to_wire t)
      → length t.executor_params ≤ rt.max_param_length
      → get_run rt.callback_registry t.executor_handler ≡ some f
      → run read loads rt request ≡ (reads_body ∷ calls_back ∷ [], dispatch (f t) (text "run"))
  unfolding run build_model
  run-delivers t f c h g =
      rw
        (
          c.token,
          parse_body-Carries (trigger_to_wire t) c,
          params_ok t h,
          trigger_round_trip t,
          has_run-get rt.callback_registry t.executor_handler f g,
          g,
        )
        refl

module _ {S : Type 0} (read : S → ℕ → List ℕ × S) (loads : List ℕ → Loaded) (rt : Runtime) where
  -- A request to kill, to look for an idle executor or to read a log that the Admin sends with the
  -- right token and within the size limit reaches the callback of its endpoint, with every field
  -- as sent, and is answered by what that callback does: the body is read, and one callback called.
  pub endpoints-deliver :
      (to_kill to_idle_beat to_log : Request S) (k : KillRequest) (i : IdleBeatRequest)
      (l : LogRequest) (on_kill : KillRequest → Outcome) (on_idle_beat : IdleBeatRequest → Outcome)
      (on_log : LogRequest → Outcome)
      → rt.callback_registry.kill ≡ some on_kill
      → rt.callback_registry.idle_beat ≡ some on_idle_beat
      → rt.callback_registry.log ≡ some on_log
      → Carries read loads rt to_kill (kill_to_wire k)
      → Carries read loads rt to_idle_beat (idle_beat_to_wire i)
      → Carries read loads rt to_log (log_to_wire l)
      → (kill read loads rt to_kill
          ≡ (reads_body ∷ calls_back ∷ [], dispatch (on_kill k) (text "kill")))
        × (idle_beat read loads rt to_idle_beat
            ≡ (reads_body ∷ calls_back ∷ [], dispatch (on_idle_beat i) (text "idleBeat")))
        × (log read loads rt to_log ≡ (reads_body ∷ calls_back ∷ [], dispatch_log (on_log l)))
  unfolding kill idle_beat log build_model
  endpoints-deliver to_kill to_idle_beat to_log k i l on_kill on_idle_beat on_log hk hi hl ck ci
        cl =
      (
        rw
            (
              ck.token,
              parse_body-Carries read loads rt to_kill (kill_to_wire k) ck,
              kill_round_trip k,
              hk,
            )
            refl,
        rw
            (
              ci.token,
              parse_body-Carries read loads rt to_idle_beat (idle_beat_to_wire i) ci,
              idle_beat_round_trip i,
              hi,
            )
            refl,
        rw
            (
              cl.token,
              parse_body-Carries read loads rt to_log (log_to_wire l) cl,
              log_round_trip l,
              hl,
            )
            refl,
      )
