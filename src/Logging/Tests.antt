-- ===== src/Logging/Tests.antt =====
-- flask_xxljob/_logging.py: a manager with a file and a console, and texts.
use flask_xxljob.Base.{◌==◌, true, false, ◌≡◌, refl, [], ◌∷◌, text, text_eq}
use flask_xxljob.Registry.State
use flask_xxljob.Config.Load.{XxlJobConfig}
use flask_xxljob.Config.Sample.{loaded}
use flask_xxljob.Logging.{
  is_safe, safe_app_name, redact_text, format_colored, Logger, begin, effective_enabled, Opening,
  configure, prepare_shutdown, close,
}
use flask_xxljob.Logging.Laws.{IsRestored, configure-close}

abbrev logging_on : XxlJobConfig
logging_on = record loaded { log_enabled = true }

abbrev opening : Opening
opening = record {
  path = text "/srv/logs/flask-xxljob.log";
  file_id = 20;
  console_id = 21;
  file_raises = false;
  console_raises = false;
}

abbrev logger : Logger
logger = record { level = 0; propagate = true; handlers = 3 ∷ [] }

configure_adds : (configure opening logging_on (begin logger)).0.logger.handlers ≡ 3 ∷ 20 ∷ 21 ∷ []
unfolding configure effective_enabled State.add
configure_adds = refl

configure-close_example :
    IsRestored logger
      (close (prepare_shutdown (λ h. h == 21) (configure opening logging_on (begin logger)).0))
configure-close_example = configure-close (λ h. h == 21) opening logging_on logger refl refl refl

safe_app_name_demo : safe_app_name (text "../my app!") ≡ text "my_app"
unfolding safe_app_name is_safe
safe_app_name_demo = refl

redact_text_demo :
    redact_text
      (record { private_key = λ s. s; sensitive_assignment = λ s. s })
      (text "a token, token!")
      (text "token")
    ≡ text "a <redacted>, <redacted>!"
unfolding redact_text
redact_text_demo = refl

format_colored_demo : format_colored (text "TRACE") (text "line") ≡ text "line"
unfolding format_colored text_eq
format_colored_demo = refl
