-- ===== src/Registry/Service/Tests.antt =====
-- registry_service.py: calls of the service in a small process.
use flask_xxljob.Base.{refl, arith, true}
use flask_xxljob.Base.Dict
use flask_xxljob.Base.Dict.{nat_eq}
use flask_xxljob.Registry.State.{Process}
use flask_xxljob.Registry.Sample.{settings, heap, accepted, world, fresh}
use flask_xxljob.Registry.Steps.{Reach}
use flask_xxljob.Registry.Lifecycle.{
  prepare_start, activate_prepared_start, commit_activation, stop_local,
}
use flask_xxljob.Registry.Service.{start, activate_if, Call, perform}
use flask_xxljob.Registry.Service.Removal.{IsFinished, removal_completes}
use flask_xxljob.Registry.Service.Refinement.{perform-Steps}

abbrev running : Process
running = perform world Call.starts fresh

running-Reach : Reach running
running-Reach = (settings, heap, 7, perform-Steps world Call.starts fresh)

removal_completes_example :
    IsFinished running (perform world (Call.finishes 0) (perform world (Call.stops true) running))
unfolding perform start activate_if prepare_start activate_prepared_start commit_activation
    stop_local
removal_completes_example =
    removal_completes running 0 world world accepted running-Reach refl refl refl refl refl
      (omega arith) refl refl

abbrev draining : Process
draining = perform world (Call.stops true) running
