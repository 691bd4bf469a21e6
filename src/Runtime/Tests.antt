-- ===== src/Runtime/Tests.antt =====
-- flask_xxljob/runtime.py: a runtime that is closed, twice and in a fork.
use flask_xxljob.Base.{◌≡◌, false, none, true, arith}
use flask_xxljob.Registry.Sample.{world, fresh}
use flask_xxljob.Runtime.{XxlJobRuntime, close}
use flask_xxljob.Runtime.Closing.{close-fork}

abbrev runtime : XxlJobRuntime
runtime = record { pid = 7; closed = false; process = fresh }

close-fork_example :
    ((close world 8 runtime).process.rpc_sequence ≡ 0)
    × ((close world 8 runtime).process.pending_remove ≡ none)
    × ((close world 8 runtime).process.active_remove ≡ none)
    × ((close world 8 runtime).process.logs_closed ≡ true)
close-fork_example = close-fork world 8 runtime (ground arith) (ground arith)
