-- ===== src/Logging.antt =====
-- flask_xxljob/_logging.py: the log manager of an application, and the redaction of a text. A handler
-- is an object with identity, a number.
use flask_xxljob.Base.{
  ℕ, zero, suc, ◌-◌, leb, ◌==◌, Bool, true, false, not, ◌&&◌, ◌||◌, Option, none, some, List, [],
  ◌∷◌, ◌++◌, is_empty, length, lstrip, rstrip, Text, text, text_eq, if◌then◌else◌,
}
use flask_xxljob.Registry.State.{add, discard}
use flask_xxljob.Config.Load.{XxlJobConfig}
pub mod Handlers
pub mod Laws
mod Tests

-- the characters `A-Za-z0-9_.-`
unfoldable pub is_safe : ℕ → Bool
is_safe c =
    (leb 65 c && leb c 90)
    || (leb 97 c && leb c 122)
    || (leb 48 c && leb c 57)
    || c == 95
    || c == 46
    || c == 45

-- `re.sub(r"[^A-Za-z0-9_.-]+", "_", name)`; `after` says that the last character was replaced
abbrev pub replace_unsafe : Bool → Text → Text
replace_unsafe after [] = []
replace_unsafe after (c ∷ s) =
    let kept = replace_unsafe false s in
    let replaced = replace_unsafe true s in
    if is_safe c then c ∷ kept else if after then replaced else 95 ∷ replaced

abbrev pub is_edge : ℕ → Bool
is_edge c = c == 46 || c == 95 || c == 45

abbrev pub or_app : Text → Text
or_app [] = text "app"
or_app (c ∷ s) = c ∷ s

-- `_safe_app_name`
unfoldable pub safe_app_name : Text → Text
safe_app_name name = or_app (rstrip is_edge (lstrip is_edge (replace_unsafe false name)))

-- `s.replace(old, new)`, for an `old` that is not empty; `skip` characters of a match are left
abbrev pub has_prefix : Text → Text → Bool
has_prefix [] s = true
has_prefix (c ∷ p) [] = false
has_prefix (c ∷ p) (d ∷ s) = c == d && has_prefix p s

abbrev pub replace_from : Text → Text → ℕ → Text → Text
replace_from old new skip [] = []
replace_from old new (suc skip) (c ∷ s) = replace_from old new skip s
replace_from old new zero (c ∷ s) = elim (has_prefix old (c ∷ s)) [
  | true ↦ new ++ replace_from old new (length old - 1) s
  | false ↦ c ∷ replace_from old new 0 s
]

-- `_PRIVATE_KEY.sub("<redacted-private-key>", ·)` and `_SENSITIVE_ASSIGNMENT.sub(r"\1=<redacted>", ·)`
pub record Patterns : Type 0 where
  pub private_key : Text → Text
  pub sensitive_assignment : Text → Text

abbrev pub hide_token : Text → Text → Text
hide_token access_token s =
    if is_empty access_token then s else replace_from access_token (text "<redacted>") 0 s

-- `redact_text` of a text
unfoldable pub redact_text : Patterns → Text → Text → Text
redact_text p value access_token =
    p.sensitive_assignment (p.private_key (hide_token access_token value))

-- `_LEVEL_COLORS.get(levelname)`, and `LevelColorFormatter.format` of a rendered record
abbrev pub color_code : Text → Option Text
color_code level =
    if text_eq level (text "DEBUG")
    then some (text "34m")
    else if text_eq level (text "INFO")
    then some (text "32m")
    else if text_eq level (text "WARNING")
    then some (text "33m")
    else if text_eq level (text "ERROR")
    then some (text "31m")
    else if text_eq level (text "CRITICAL")
    then some (text "1;31m")
    else none

unfoldable pub format_colored : Text → Text → Text
format_colored level rendered = elim (color_code level) [
  | none ↦ rendered
  | some code ↦ (27 ∷ 91 ∷ []) ++ code ++ rendered ++ (27 ∷ 91 ∷ text "0m")
]

-- What the manager uses of `logging.Logger`.
pub record Logger : Type 0 where
  pub level : ℕ
  pub propagate : Bool
  pub handlers : List ℕ

-- `XXLJobLogManager`; `open_handlers` are those of its handlers that are not closed.
pub record LogManager : Type 0 where
  pub logger : Logger
  pub handlers : List ℕ
  pub closed : Bool
  pub original_level : ℕ
  pub original_propagate : Bool
  pub log_file : Option Text
  pub open_handlers : List ℕ

-- `__init__`, lines 92 to 99
abbrev pub begin : Logger → LogManager
begin l = record {
  logger = l;
  handlers = [];
  closed = false;
  original_level = l.level;
  original_propagate = l.propagate;
  log_file = none;
  open_handlers = [];
}

-- `effective_enabled`, `file_enabled`, `console_enabled`, `log_file`
unfoldable pub effective_enabled : XxlJobConfig → Bool
effective_enabled c = c.enabled && c.log_enabled

unfoldable pub file_enabled : XxlJobConfig → Bool
file_enabled c = effective_enabled c && c.log_file_enabled

unfoldable pub console_enabled : XxlJobConfig → Bool
console_enabled c = effective_enabled c && c.log_console_enabled

unfoldable pub shown_log_file : XxlJobConfig → Option Text → Option Text
shown_log_file c path = if file_enabled c then path else none

-- `getattr(logging, level)`
unfoldable pub level_number : Text → ℕ
level_number level =
    if text_eq level (text "DEBUG")
    then 10
    else if text_eq level (text "INFO")
    then 20
    else if text_eq level (text "WARNING")
    then 30
    else if text_eq level (text "ERROR")
    then 40
    else 50

-- The handlers that the operating system and `logging` make: the resolved path, the identities,
-- and which of the two raises.
pub record Opening : Type 0 where
  pub path : Text
  pub file_id : ℕ
  pub console_id : ℕ
  pub file_raises : Bool
  pub console_raises : Bool

-- lines 121 to 142: the created handlers, and whether an exception was raised
abbrev pub create_file : Opening → XxlJobConfig → List ℕ × Bool
create_file o c =
    if c.log_file_enabled
    then (if o.file_raises then ([], true) else (o.file_id ∷ [], false))
    else ([], false)

abbrev pub create_console : Opening → XxlJobConfig → List ℕ × Bool → List ℕ × Bool
create_console o c (created, true) = (created, true)
create_console o c (created, false) =
    if c.log_console_enabled
    then (if o.console_raises then (created, true) else (created ++ o.console_id ∷ [], false))
    else (created, false)

abbrev pub add_handlers : List ℕ → List ℕ → List ℕ
add_handlers [] handlers = handlers
add_handlers (h ∷ hs) handlers = add_handlers hs (add h handlers)

abbrev pub remove_handlers : List ℕ → List ℕ → List ℕ
remove_handlers [] handlers = handlers
remove_handlers (h ∷ hs) handlers = remove_handlers hs (discard h handlers)

-- lines 143 to 155: the manager, and whether it raised
abbrev pub install : Opening → XxlJobConfig → LogManager → List ℕ × Bool → LogManager × Bool
install o c m (created, true) = (m, true)
install o c m (created, false) = (
  record m {
    logger = record {
      level = level_number c.log_level;
      propagate = c.log_propagate;
      handlers = add_handlers created m.logger.handlers;
    };
    handlers = created;
    log_file = if c.log_file_enabled then some o.path else none;
    open_handlers = created;
  },
  false,
)

-- `_configure`
unfoldable pub configure : Opening → XxlJobConfig → LogManager → LogManager × Bool
unfolding level_number
configure o c m =
    if not (effective_enabled c)
    then (m, false)
    else if not (c.log_file_enabled || c.log_console_enabled)
    then (m, false)
    else install o c m (create_console o c (create_file o c))

-- `prepare_shutdown`, where `is_stale` says that the stream of a handler is closed
abbrev pub stale_handlers : (ℕ → Bool) → List ℕ → List ℕ
stale_handlers is_stale [] = []
stale_handlers is_stale (h ∷ hs) =
    let rest = stale_handlers is_stale hs in if is_stale h then h ∷ rest else rest

unfoldable pub prepare_shutdown : (ℕ → Bool) → LogManager → LogManager
prepare_shutdown is_stale m =
    let stale = stale_handlers is_stale m.handlers in
    record m {
      logger = record m.logger { handlers = remove_handlers stale m.logger.handlers };
      open_handlers = remove_handlers stale m.open_handlers;
      handlers = stale_handlers (λ h. not (is_stale h)) m.handlers;
    }

-- `close`
unfoldable pub close : LogManager → LogManager
close m = if m.closed then m else record m {
  closed = true;
  logger = record {
    level = m.original_level;
    propagate = m.original_propagate;
    handlers = remove_handlers m.handlers m.logger.handlers;
  };
  open_handlers = remove_handlers m.handlers m.open_handlers;
  handlers = [];
}
