-- ===== src/Tests/Operations.antt =====
-- Operations, their watcher and their store.
use deploy_gateway.Base.{ok, [], ◌∷◌, ◌*◌, ◌≡◌, ◌↔◌, refl, true, none, arith}
use deploy_gateway.Base.Dict.{lookup}
use deploy_gateway.Base.StateMonad.{◌>>=◌}
use deploy_gateway.Store.{second}
use deploy_gateway.Store.InMemory.{new_in_memory, put_operation}
use deploy_gateway.Store.InMemory.Laws.{view, new_in_memory-IsLawful, new_in_memory-IsReliable}
use deploy_gateway.Manager.Platform.{Platform}
use deploy_gateway.Manager.World.{World, on_store, on_platform}
use deploy_gateway.Manager.Start.{action_restart, started_operation, panics, restart, rollout}
use deploy_gateway.Manager.Crash.{IsNameless, rollout-panics_iff}
use deploy_gateway.Manager.Started.{Started, restart-Started}
use deploy_gateway.Manager.RolledOut.{RolledOut, rollout-RolledOut}
use deploy_gateway.Manager.Watch.{watch_rollout}
use deploy_gateway.Manager.Watch.Loop.{watch_rollout_ends}
use deploy_gateway.Manager.Watch.Settles.{Ended, EndedOp}
use deploy_gateway.Manager.Reconcile.{start_sweeper}
use deploy_gateway.Manager.Reconcile.Sweeps.{IsLive}
use deploy_gateway.Manager.Reconcile.Sweeper.{start_sweeper_ends}
use deploy_gateway.Manager.Watch.Resolves.{watch_rollout_resolves}
use deploy_gateway.Tests.Lab.{
  rolled_out, cluster, cluster-IsTimely, identity, config, running_op, busy, idle,
}

-- The only container of this deployment has no name, which the code takes for an error that is not there.
abbrev nameless_cluster : Platform
nameless_cluster = record cluster {
  get_deployment = λ ns name e.
      (ok (record rolled_out { containers = record { name = ""; image = "web:2" } ∷ [] }), e);
}

abbrev nameless : World new_in_memory nameless_cluster
nameless = record { store = []; platform = 10 * second; notices = []; watchers = [] }

rollout-panics_iff_example :
    ((rollout new_in_memory nameless_cluster config "B2" identity "prod" "web" "" "web:3"
        nameless).0
      ≡ panics)
    ↔ IsNameless new_in_memory nameless_cluster config "B2" identity "prod" "web" "" nameless
rollout-panics_iff_example =
    rollout-panics_iff new_in_memory nameless_cluster config "B2" identity "prod" "web" "" "web:3"
      nameless

watch_rollout_ends_example :
    (watch_rollout new_in_memory cluster config 126 running_op none busy).0 ≡ true
unfolding watch_rollout
watch_rollout_ends_example =
    watch_rollout_ends new_in_memory cluster config cluster-IsTimely 125 running_op none busy
      (omega arith)

watch_rollout_resolves_example :
    ((watch_rollout new_in_memory cluster config 126 running_op none busy).0 ≡ true)
    × Ended new_in_memory cluster view "op_a1"
        (watch_rollout new_in_memory cluster config 126 running_op none busy).1
unfolding watch_rollout started_operation lookup
watch_rollout_resolves_example =
    watch_rollout_resolves new_in_memory cluster config view new_in_memory-IsLawful
      new_in_memory-IsReliable running_op cluster-IsTimely 125 none busy (omega arith)
      (record { op = running_op; found = refl })

restart-Started_example :
    ("op_b2"
      ≡ (started_operation "B2" identity action_restart "prod" "web" "" ""
          (10 * second)).operation_id)
    × Started new_in_memory cluster config view new_in_memory-IsLawful
        (started_operation "B2" identity action_restart "prod" "web" "" "" (10 * second))
        (cluster.restart_deployment "prod" "web")
        idle
        (restart new_in_memory cluster config "B2" identity "prod" "web" idle).1
unfolding restart ◌>>=◌ on_store on_platform put_operation
restart-Started_example =
    restart-Started new_in_memory cluster config view new_in_memory-IsLawful "B2" identity "prod"
      "web" idle "op_b2" refl

-- The request names no container, so the only one of the deployment is taken.
rollout-RolledOut_example :
    RolledOut new_in_memory cluster config view new_in_memory-IsLawful "B2" identity "prod" "web"
      idle "op_b2" "" "web:3"
      (rollout new_in_memory cluster config "B2" identity "prod" "web" "" "web:3" idle).1
unfolding rollout ◌>>=◌ on_store on_platform put_operation
rollout-RolledOut_example =
    rollout-RolledOut new_in_memory cluster config view new_in_memory-IsLawful "B2" identity "prod"
      "web" idle "op_b2" "" "web:3" refl

cluster-IsLive : IsLive cluster
cluster-IsLive = record { not_done = λ ns name e. refl; not_canceled = λ ns name e h. cc }

-- The watcher of the operation is gone.
start_sweeper_ends_example :
    EndedOp new_in_memory cluster config view new_in_memory-IsLawful new_in_memory-IsReliable
      running_op
      (start_sweeper new_in_memory cluster config 121 busy).1
unfolding started_operation lookup
start_sweeper_ends_example =
    start_sweeper_ends new_in_memory cluster config view new_in_memory-IsLawful
      new_in_memory-IsReliable cluster-IsLive cluster-IsTimely running_op refl 120 busy refl
      (omega arith)
