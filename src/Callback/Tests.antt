-- ===== src/Callback/Tests.antt =====
-- flask_xxljob/callback/registry.py: small registries, with numbers in the place of functions.
use flask_xxljob.Base.{
  ℕ, ◌≡◌, refl, sym, text_eq_sound, inl, inr, Bool-cases, arith, false, Option, none, some, [], ◌∷◌,
  Text, text, text_eq, strip,
}
use flask_xxljob.Base.Dict
use flask_xxljob.Base.Dict.{text_key}
use flask_xxljob.Callback.{
  Func, callable, name, Run, mapping, ok, CallbackRegistry, register_callbacks, or_else, get_run,
  register_run, register_run_item, validate_single,
}
use flask_xxljob.Callback.Items.{requested_run, requested_func, AllNamed}
use flask_xxljob.Callback.Laws.{
  register_callbacks-get, register_callbacks-keeps, register_callbacks-AllNamed,
}

abbrev before : CallbackRegistry ℕ ℕ ℕ ℕ
before = record { run = (text "a", 1) ∷ []; idle_beat = none; kill = none; log = none }

abbrev batch : Option (Run ℕ)
batch = some (mapping ((name (text "b"), callable 2) ∷ []))

abbrev no_func : Option (Func ℕ)
no_func = none

abbrev killer : Option (Func ℕ)
killer = some (callable 3)

abbrev after : CallbackRegistry ℕ ℕ ℕ ℕ
after = record {
  run = (text "a", 1) ∷ (text "b", 2) ∷ [];
  idle_beat = none;
  kill = some 3;
  log = none;
}

accepted : register_callbacks before batch no_func killer no_func false ≡ ok after
unfolding register_callbacks register_run register_run_item text_eq strip Dict.has validate_single
    Dict.put
accepted = refl

before-AllNamed : AllNamed before.run
unfolding AllNamed Dict.get strip
before-AllNamed s f e = elim (Bool-cases (text_eq (text "a") s)) [
  | inl same ↦ rw (sym (text_eq_sound (text "a") s same)) (refl, refl)
  | inr other ↦ absurd (ground arith)
]

register_callbacks-get_example :
    ((s : Text) → get_run after s ≡ or_else (requested_run batch s) (get_run before s))
    × (after.idle_beat ≡ or_else (requested_func no_func) before.idle_beat)
    × (after.kill ≡ or_else (requested_func killer) before.kill)
    × (after.log ≡ or_else (requested_func no_func) before.log)
register_callbacks-get_example =
    register_callbacks-get before after batch no_func killer no_func false accepted

register_callbacks-keeps_example : get_run after (text "a") ≡ some 1
unfolding get_run Dict.get text_eq
register_callbacks-keeps_example =
    register_callbacks-keeps before after batch no_func killer no_func (text "a") 1 accepted refl

register_callbacks-AllNamed_example : AllNamed after.run
register_callbacks-AllNamed_example =
    register_callbacks-AllNamed before after batch no_func killer no_func false accepted
      before-AllNamed
