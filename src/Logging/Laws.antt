-- ===== src/Logging/Laws.antt =====
-- flask_xxljob/_logging.py: the log manager gives its logger back, and the names of loggers are safe.
use flask_xxljob.Base.{
  ℕ, ◌==◌, Bool, true, false, not, ◌||◌, ◌≡◌, refl, List, [], ◌∷◌, ◌++◌, all, is_empty, lstrip,
  rstrip, push_unless_end, Text, arith, Bool-cases, inl, inr, if◌then◌else◌,
}
use flask_xxljob.Config.Load.{XxlJobConfig}
use flask_xxljob.Logging.Handlers.{
  mem, append_nil, remove_handlers-append, stale_handlers-IsApart, add_handlers-append, IsCreated,
  nothing, file, console, both, leaves-nothing, created-IsDistinct, created-IsApart,
}
use flask_xxljob.Logging.{
  is_safe, replace_unsafe, is_edge, or_app, safe_app_name, Logger, LogManager, begin,
  effective_enabled, Opening, create_file, create_console, add_handlers, remove_handlers, install,
  configure, stale_handlers, prepare_shutdown, close,
}

-- a test holds of all characters of what is left
all-lstrip : (p q : ℕ → Bool) (s : Text) → all p s ≡ true → all p (lstrip q s) ≡ true
all-lstrip p q [] h = refl
all-lstrip p q (c ∷ s) h = ground (arith, all-lstrip p q s)

all-push_unless_end :
    (p q : ℕ → Bool) (c : ℕ) (s : Text)
    → p c ≡ true
    → all p s ≡ true
    → all p (push_unless_end q c s) ≡ true
all-push_unless_end p q c [] h k = ground arith
all-push_unless_end p q c (d ∷ s) h k = ground arith

all-rstrip : (p q : ℕ → Bool) (s : Text) → all p s ≡ true → all p (rstrip q s) ≡ true
all-rstrip p q [] h = refl
all-rstrip p q (c ∷ s) h =
    all-push_unless_end p q c (rstrip q s) (ground arith) (all-rstrip p q s (ground arith))

underscore-is_safe : is_safe 95 ≡ true
unfolding is_safe
underscore-is_safe = refl

all-replace_unsafe : (after : Bool) (s : Text) → all is_safe (replace_unsafe after s) ≡ true
all-replace_unsafe after [] = refl
all-replace_unsafe after (c ∷ s) =
    ground (arith, underscore-is_safe, all-replace_unsafe true s, all-replace_unsafe false s)

or_app-safe :
    (s : Text)
    → all is_safe s ≡ true
    → (all is_safe (or_app s) ≡ true) × (is_empty (or_app s) ≡ false)
unfolding is_safe
or_app-safe [] h = (refl, refl)
or_app-safe (c ∷ s) h = (h, refl)

-- The name of an application in a logger's name is not empty and has only letters and digits of
-- ASCII, underscores, dots and dashes.
pub safe_app_name_lem :
    (name : Text)
    → (all is_safe (safe_app_name name) ≡ true) × (is_empty (safe_app_name name) ≡ false)
unfolding safe_app_name
safe_app_name_lem name =
    let s = replace_unsafe false name in
    or_app-safe (rstrip is_edge (lstrip is_edge s)) (
      all-rstrip is_safe is_edge (lstrip is_edge s)
        (all-lstrip is_safe is_edge s (all-replace_unsafe false name)))

create-IsCreated :
    (o : Opening) (c : XxlJobConfig)
    → IsCreated o.file_id o.console_id (create_console o c (create_file o c)).0
create-IsCreated o c = elim (Bool-cases c.log_file_enabled) [
  | inl e ↦ elim (Bool-cases o.file_raises) [
    | inl r ↦ rw (e, r) nothing
    | inr r ↦ rw (e, r) (with_console (o.file_id ∷ []) file both)
  ]
  | inr e ↦ rw e (with_console [] nothing console)
]
  where
    with_console :
        (hs : List ℕ)
        → IsCreated o.file_id o.console_id hs
        → IsCreated o.file_id o.console_id (hs ++ o.console_id ∷ [])
        → IsCreated o.file_id o.console_id (create_console o c (hs, false)).0
    with_console hs h k = elim (Bool-cases c.log_console_enabled) [
      | inl e ↦ elim (Bool-cases o.console_raises) [ inl r ↦ rw (e, r) h | inr r ↦ rw (e, r) k ]
      | inr e ↦ rw e h
    ]

-- The logger is the one before, and no handler of the manager is open.
abbrev pub IsRestored : Logger → LogManager → Type 0
IsRestored l m = (m.logger ≡ l) × (m.open_handlers ≡ [])

module _ (is_stale : ℕ → Bool) (o : Opening) (c : XxlJobConfig) (l : Logger)
    (distinct : (o.console_id == o.file_id) ≡ false) (new_file : mem o.file_id l.handlers ≡ false)
    (new_console : mem o.console_id l.handlers ≡ false) where
  abbrev Restores : LogManager × Bool → Type 0
  Restores r = IsRestored l (close (prepare_shutdown is_stale r.0))

  begin-Restores : (b : Bool) → Restores (begin l, b)
  unfolding close prepare_shutdown
  begin-Restores b = (refl, refl)

  -- the handlers that were added are removed
  handlers_back :
      (hs : List ℕ)
      → IsCreated o.file_id o.console_id hs
      → remove_handlers
          (stale_handlers (λ h. not (is_stale h)) hs)
          (remove_handlers (stale_handlers is_stale hs) (add_handlers hs l.handlers))
        ≡ l.handlers
  handlers_back hs k =
      let apart = created-IsApart o.file_id o.console_id hs l.handlers k new_file new_console in
      rw
        (
          add_handlers-append hs l.handlers apart
              (created-IsDistinct is_stale o.file_id o.console_id distinct hs k),
          remove_handlers-append (stale_handlers is_stale hs) l.handlers hs
              (stale_handlers-IsApart is_stale hs l.handlers apart),
          remove_handlers-append (stale_handlers (λ h. not (is_stale h)) hs) l.handlers
              (remove_handlers (stale_handlers is_stale hs) hs)
              (stale_handlers-IsApart (λ h. not (is_stale h)) hs l.handlers apart),
          leaves-nothing is_stale o.file_id o.console_id distinct hs k,
        )
        (append_nil l.handlers)

  install-Restores :
      (created : List ℕ × Bool)
      → IsCreated o.file_id o.console_id created.0
      → Restores (install o c (begin l) created)
  unfolding close prepare_shutdown
  install-Restores (hs, true) k = (refl, refl)
  install-Restores (hs, false) k =
      (rw (handlers_back hs k) refl, leaves-nothing is_stale o.file_id o.console_id distinct hs k)

  if-Restores :
      (b : Bool) (x y : LogManager × Bool) → Restores x → Restores y → Restores (if b then x else y)
  if-Restores true x y h k = h
  if-Restores false x y h k = k

  -- Closing the log manager gives the logger its level, its propagation and its handlers back, and
  -- leaves no handler of the manager open: whether the configuration succeeds or raises, and
  -- whichever streams were closed before and found by `prepare_shutdown`. The new handlers are not
  -- among those of the logger.
  pub configure-close : IsRestored l (close (prepare_shutdown is_stale (configure o c (begin l)).0))
  unfolding configure
  configure-close =
      if-Restores (not (effective_enabled c)) (begin l, false) _ (begin-Restores false)
        (if-Restores (not (c.log_file_enabled || c.log_console_enabled)) (begin l, false) _
          (begin-Restores false)
          (install-Restores (create_console o c (create_file o c)) (create-IsCreated o c)))
