-- ===== src/Registry/Service/Serving.antt =====
-- registry_service.py: no Pending Remove is left alone when a Worker or a cleanup actor ends.
use flask_xxljob.Base.{ℕ, ◌+◌, ◌==◌, ◌||◌, ◌≡◌, Bool, true, false, Option, none, some, is_some}
use flask_xxljob.Base.Dict
use flask_xxljob.Base.Dict.{nat_eq}
use flask_xxljob.Registry.State.{Process}
use flask_xxljob.Registry.Service.{World}

module _ (w : World) where
  -- The Thread is alive, or is the one that was started last.
  abbrev pub is_manned : Process → Option ℕ → Bool
  is_manned p none = false
  is_manned p (some t) = w.alive t || (t + 1 == p.next)

  -- Somebody comes to a Pending Remove: the one that executes the Active Remove, the Worker of its
  -- generation, which is stopping, or a cleanup actor of its own.
  abbrev pub is_served : Process → Option ℕ → Bool
  is_served p none = true
  is_served p (some o) =
      is_some p.active_remove
      || Dict.has p.stopping_workers (p.operations o).generation
      || is_manned p (p.operations o).thread

  abbrev pub IsServed : Process → Type 0
  IsServed p = is_served p p.pending_remove ≡ true
