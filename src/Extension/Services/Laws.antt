-- ===== src/Extension/Services/Laws.antt =====
-- flask_xxljob/extension.py: when `callback` reaches the callback client.
use mathlib.Core.Path.{subst}
use flask_xxljob.Base.{
  sym, ◌∙◌, ℕ, ℤ, true, false, ◌≡◌, refl, Option, Text, text, arith, Bool-cases, inl, inr, ◌⊎◌,
}
use flask_xxljob.Client.Result.{CallResult, local_failure, config}
use flask_xxljob.Client.Callback.{CallbackConfig, Sent, not_sent, callback}
use flask_xxljob.Model.Value.{Value, Values, null, bool, int, float, str, list, object}
use flask_xxljob.Extension.Facade.{
  Answer, ok, raised, ◌>>=◌, require_int, Extension, Runtime, get_runtime,
}
use flask_xxljob.Extension.Facade.Laws.{bind-ok}
use flask_xxljob.Extension.Services.{callback_config, require_integers, callback_of}

abbrev pub IsInt : Value → Type 0
IsInt v = (n : ℤ) × (v ≡ int n)

then_ok :
    {A B : Type 0} (m : Answer A) (k : Answer B) (b : B)
    → (do _ ← m; k) ≡ ok b
    → ((a : A) × (m ≡ ok a)) × (k ≡ ok b)
then_ok (ok a) k b h = ((a, refl), h)
then_ok (raised e) k b h = ground arith

require_int-ok : (label : Text) (v : Value) (u : Unit {0}) → require_int label v ≡ ok u → IsInt v
unfolding require_int
require_int-ok label (int n) u h = (n, refl)
require_int-ok label null u h = ground arith
require_int-ok label (bool b) u h = ground arith
require_int-ok label (float x) u h = ground arith
require_int-ok label (str s) u h = ground arith
require_int-ok label (list vs) u h = ground arith
require_int-ok label (object d) u h = ground arith

require_integers-ok :
    (a b c : Value) (u : Unit {0})
    → require_integers true a b c ≡ ok u
    → IsInt a × IsInt b × IsInt c
require_integers-ok a b c u h =
    let ((x, first), rest) = then_ok (require_int (text "log_id") a) _ u h in
    let ((y, second), third) = then_ok (require_int (text "log_date_time") b) _ u rest in
    (
      require_int-ok (text "log_id") a x first,
      require_int-ok (text "log_date_time") b y second,
      require_int-ok (text "handle_code") c u third,
    )

callback-disabled :
    (post : Values → CallResult) (c : CallbackConfig) (a b d m : Value)
    → c.enabled ≡ false
    → callback post c a b d m ≡ not_sent (local_failure (text "Flask-XXLJob is disabled.") config)
unfolding callback
callback-disabled post c a b d m off = rw off refl

ok-injective : (x y : Sent) → ok x ≡ ok y → x ≡ y
ok-injective x y h = ground arith

module _ {R I K L : Type 0} where
  -- When `callback` does not raise, the Runtime of the application was found, and either it is
  -- enabled and the three numbers are integers, no Booleans, or it is disabled, nothing is sent and
  -- the result is the local failure, whatever the arguments are.
  pub callback_of-ok :
      (post : ℕ → Values → CallResult) (e : Extension R I K L)
      (log_id log_date_time handle_code handle_msg : Value) (app : Option ℕ) (x : Sent)
      → callback_of post e log_id log_date_time handle_code handle_msg app ≡ ok x
      → (found : ℕ × Runtime R I K L) × (get_runtime e app ≡ ok found)
        × ((found.1.config.enabled ≡ true) × IsInt log_id × IsInt log_date_time × IsInt handle_code
            ⊎ (found.1.config.enabled ≡ false)
              × (x ≡ not_sent (local_failure (text "Flask-XXLJob is disabled.") config)))
  unfolding callback_of
  callback_of-ok post e log_id log_date_time handle_code handle_msg app x h =
      let (found, seen, rest) = bind-ok (get_runtime e app) _ x h in
      let c = found.1.config in
      let ((u, checked), sent) =
        then_ok (require_integers c.enabled log_id log_date_time handle_code) _ x rest in
      (
        found,
        seen,
        elim (Bool-cases c.enabled) [
          | inl on ↦
              (let (i, j, k) = require_integers-ok log_id log_date_time handle_code u (
                  subst (λ b. require_integers b log_id log_date_time handle_code ≡ ok u) on
                    checked) in
                inl (on, i, j, k))
          | inr off ↦ inr (
            off,
            sym (ok-injective _ x sent)
                ∙ callback-disabled (post found.0) (callback_config c) log_id log_date_time
                    handle_code handle_msg off,
          )
        ],
      )
