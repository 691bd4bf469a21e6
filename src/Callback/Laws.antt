-- ===== src/Callback/Laws.antt =====
-- flask_xxljob/callback/registry.py: which callback a name has after the registry was written.
use flask_xxljob.Base.{◌≡◌, refl, Bool, false, Option, some, Text, text, arith}
use flask_xxljob.Base.Dict.{text_key}
use flask_xxljob.Callback.{
  Func, Run, ok, validate_single, CallbackRegistry, register_optional_run, register_callbacks,
  seed_from, or_else, get_run,
}
use flask_xxljob.Callback.Items.{
  requested_run, requested_func, and_then-ok, validate_single-ok, optional_run-get, seed_run-get,
  optional_run-keeps, AllNamed, optional_run-AllNamed,
}

module _ {R I K L : Type 0} where
  -- An application's registry that is seeded with the extension's has the application's own
  -- callback wherever there is one, and the extension's otherwise: for each JobHandler name, and
  -- for idleBeat, kill and log.
  pub seed_from-get :
      (r other : CallbackRegistry R I K L) (s : Text)
      → (get_run (seed_from r other) s ≡ or_else (get_run r s) (get_run other s))
        × ((seed_from r other).idle_beat ≡ or_else r.idle_beat other.idle_beat)
        × ((seed_from r other).kill ≡ or_else r.kill other.kill)
        × ((seed_from r other).log ≡ or_else r.log other.log)
  unfolding get_run seed_from
  seed_from-get r other s = (seed_run-get r.run other.run s, refl, refl, refl)

  -- A batch that `register_callbacks` accepts is registered as a whole: each JobHandler name has
  -- the callback of its item in the batch, and its former one if the batch has none; idleBeat,
  -- kill and log likewise.
  pub register_callbacks-get :
      (r q : CallbackRegistry R I K L) (run : Option (Run R)) (idle_beat : Option (Func I))
      (kill : Option (Func K)) (log : Option (Func L)) (replace : Bool)
      → register_callbacks r run idle_beat kill log replace ≡ ok q
      → ((s : Text) → get_run q s ≡ or_else (requested_run run s) (get_run r s))
        × (q.idle_beat ≡ or_else (requested_func idle_beat) r.idle_beat)
        × (q.kill ≡ or_else (requested_func kill) r.kill)
        × (q.log ≡ or_else (requested_func log) r.log)
  unfolding register_callbacks get_run
  register_callbacks-get r q run idle_beat kill log replace h =
      let (x, run_ok, h1) = and_then-ok (register_optional_run r.run run replace) _ q h in
      let (y, idle_ok, h2) =
        and_then-ok (validate_single (text "idleBeat") idle_beat r.idle_beat replace) _ q h1 in
      let (z, kill_ok, h3) =
        and_then-ok (validate_single (text "kill") kill r.kill replace) _ q h2 in
      let (w, log_ok, h4) = and_then-ok (validate_single (text "log") log r.log replace) _ q h3 in
      (
        λ s. ground (arith, h4, optional_run-get r.run x run replace run_ok s),
        ground (
          arith,
          h4,
          validate_single-ok (text "idleBeat") idle_beat r.idle_beat y replace idle_ok,
        ),
        ground (arith, h4, validate_single-ok (text "kill") kill r.kill z replace kill_ok),
        ground (arith, h4, validate_single-ok (text "log") log r.log w replace log_ok),
      )

  -- Without `replace`, no name loses the callback that it has: a batch that is accepted leaves it.
  pub register_callbacks-keeps :
      (r q : CallbackRegistry R I K L) (run : Option (Run R)) (idle_beat : Option (Func I))
      (kill : Option (Func K)) (log : Option (Func L)) (s : Text) (f : R)
      → register_callbacks r run idle_beat kill log false ≡ ok q
      → get_run r s ≡ some f
      → get_run q s ≡ some f
  unfolding register_callbacks get_run
  register_callbacks-keeps r q run idle_beat kill log s f h e =
      let (x, run_ok, h1) = and_then-ok (register_optional_run r.run run false) _ q h in
      let (y, idle_ok, h2) =
        and_then-ok (validate_single (text "idleBeat") idle_beat r.idle_beat false) _ q h1 in
      let (z, kill_ok, h3) = and_then-ok (validate_single (text "kill") kill r.kill false) _ q h2 in
      let (w, log_ok, h4) = and_then-ok (validate_single (text "log") log r.log false) _ q h3 in
      ground (arith, h4, optional_run-keeps r.run x run run_ok s f e)

  -- Only valid names are registered: when each JobHandler name of a registry is not empty and has
  -- no white space at its ends, this holds after a batch that is accepted too.
  pub register_callbacks-AllNamed :
      (r q : CallbackRegistry R I K L) (run : Option (Run R)) (idle_beat : Option (Func I))
      (kill : Option (Func K)) (log : Option (Func L)) (replace : Bool)
      → register_callbacks r run idle_beat kill log replace ≡ ok q
      → AllNamed r.run
      → AllNamed q.run
  unfolding register_callbacks
  register_callbacks-AllNamed r q run idle_beat kill log replace h v =
      let (x, run_ok, h1) = and_then-ok (register_optional_run r.run run replace) _ q h in
      let (y, idle_ok, h2) =
        and_then-ok (validate_single (text "idleBeat") idle_beat r.idle_beat replace) _ q h1 in
      let (z, kill_ok, h3) =
        and_then-ok (validate_single (text "kill") kill r.kill replace) _ q h2 in
      let (w, log_ok, h4) = and_then-ok (validate_single (text "log") log r.log replace) _ q h3 in
      rw (run_is h4) (optional_run-AllNamed r.run x run replace run_ok v)
    where
      run_is :
          {x : _} {y : _} {z : _} {w : _}
          → ok (record { run = x; idle_beat = y; kill = z; log = w }) ≡ ok q
          → q.run ≡ x
      run_is e = ground arith
