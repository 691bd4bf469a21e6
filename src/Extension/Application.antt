-- ===== src/Extension/Application.antt =====
-- flask_xxljob/_app.py: the routes and the names that must be free, and the tracked applications.
use flask_xxljob.Base.{
  ℕ, Bool, true, false, ◌&&◌, Option, none, some, List, [], ◌∷◌, ◌++◌, any, Text, text, text_eq,
  if◌then◌else◌, map,
}
use flask_xxljob.Base.Dict
use flask_xxljob.Base.Dict.{Dict, text_key}

-- `EXECUTOR_ROUTE_SUFFIXES`
abbrev pub executor_route_suffixes : List Text
executor_route_suffixes =
    text "/beat" ∷ text "/idleBeat" ∷ text "/run" ∷ text "/kill" ∷ text "/log" ∷ []

-- `executor_paths`
unfoldable pub executor_paths : Text → List Text
executor_paths route_prefix = map (λ s. route_prefix ++ s) executor_route_suffixes

-- The conflicts of `ensure_executor_routes_available`: the POST rules at a path of the executor.
unfoldable pub route_conflicts : List Text → List (Text × Bool) → List Text
route_conflicts paths [] = []
route_conflicts paths ((rule, is_post) ∷ rules) =
    let rest = route_conflicts paths rules in
    if any (text_eq rule) paths && is_post then rule ∷ rest else rest

-- `ensure_blueprint_name_available` passes
abbrev pub is_name_available : Dict Text ℕ → Text → Bool
is_name_available blueprints name = if Dict.has blueprints name then false else true

-- `ApplicationRegistry.resolve`
pub data Resolved : Type 0 where
  resolved : ℕ → Resolved
  no_application several_applications : Resolved

unfoldable pub resolve : List ℕ → Option ℕ → Resolved
resolve apps (some app) = resolved app
resolve [] none = no_application
resolve (a ∷ []) none = resolved a
resolve (a ∷ b ∷ apps) none = several_applications
