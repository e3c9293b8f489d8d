-- ===== src/Tests/Gateway.antt =====
-- Requests to the server, and a history in which a watcher, a sweep and a read race for one operation.
use deploy_gateway.Base.{
  ◌*◌, ◌≡◌, refl, ◌==◌, none, some, List, [], ◌∷◌, ok, err, new_error, if◌then◌else◌, true, arith,
}
use deploy_gateway.Base.Text.{strip_prefix}
use deploy_gateway.Base.Dict.{lookup, insert}
use deploy_gateway.Base.StateMonad.{◌>>=◌}
use deploy_gateway.Store.{second, Operation, succeeded, finish}
use deploy_gateway.Store.InMemory.{
  new_in_memory, put_operation, get_operation, update_terminal, list_running_past_deadline,
}
use deploy_gateway.Store.InMemory.Laws.{view, new_in_memory-IsLawful, new_in_memory-IsFinal}
use deploy_gateway.Authz.Policy.{file_authorizer, file_authorize}
use deploy_gateway.Manager.Start.{action_restart, started_operation, new_operation_id, restart}
use deploy_gateway.Manager.World.{
  on_store, on_platform, now, spawn, notify_started, notify_resolved,
}
use deploy_gateway.Manager.Resolve.{resolve, complete_operation}
use deploy_gateway.Kube.Rollout.{evaluate_rollout}
use deploy_gateway.Manager.Watch.{watch_rollout}
use deploy_gateway.Manager.Reconcile.{get, reconcile_sweep}
use deploy_gateway.Manager.History.{perform, sweeps, watches}
use deploy_gateway.Manager.Steps.Exact.{IsToldExactly}
use deploy_gateway.Manager.Steps.Invariant.{IsAnnounced, IsTruthful, terminal_notices}
use deploy_gateway.Api.{
  started_body, restarts, rolls_out, gets_operation, HttpRequest, Deps, Server,
}
use deploy_gateway.Api.Responses.{restart_response}
use deploy_gateway.Api.Handlers.{serve}
use deploy_gateway.Api.Guard.{Decided, Guarded, serve-Guarded}
use deploy_gateway.Api.Work.{Accepted}
use deploy_gateway.Api.Accepted.{serve-Accepted}
use deploy_gateway.Api.Served.{Takes, restart_taken, serve-Takes}
use deploy_gateway.Api.History.{
  Event, serves, calls, elapses, run, AllNew, run_events-IsAnnounced, run_events-IsToldExactly,
  run_events-IsTruthful, run_events_final,
}
use deploy_gateway.Tests.Lab.{cluster, identity, config, running_op, idle}
use deploy_gateway.Tests.Policies.{policy}

abbrev gateway : Deps
gateway = record {
  verify = λ token. if token == "good" then ok identity else err (new_error "verify token");
  authz = file_authorizer policy;
  ready = none;
  store = new_in_memory;
  platform = cluster;
  config = config;
}

abbrev server : Server gateway
server = record { world = idle; authz = tt }

abbrev restart_request : HttpRequest
restart_request = record {
  authorization = "Bearer good";
  route = restarts (ok (record { namespace = "prod"; deployment = "web" }));
  ulid = "B2";
}

abbrev rollout_request : HttpRequest
rollout_request = record {
  authorization = "Bearer good";
  route =
      rolls_out
        (ok (record { namespace = "prod"; deployment = "web"; container = ""; image = "web:3" }));
  ulid = "C3";
}

restart_accepted : (serve gateway restart_request server).0.status ≡ 202
unfolding serve strip_prefix ◌>>=◌ file_authorize restart_response restart on_store put_operation
    on_platform
restart_accepted = refl

-- The policy grants restarts alone.
rollout_denied : (serve gateway rollout_request server).0.status ≡ 403
unfolding serve strip_prefix ◌>>=◌ file_authorize
rollout_denied = refl

abbrev history : List (Event gateway)
history =
    serves restart_request
    ∷ elapses (7300 * second) tt
    ∷ calls (
        watches 126
          (started_operation "B2" identity action_restart "prod" "web" "" "" (10 * second))
          (some 0))
    ∷ calls sweeps
    ∷ serves (record { authorization = "Bearer good"; route = gets_operation "op_b2"; ulid = "D4" })
    ∷ []

history_messages : terminal_notices "op_b2" (run gateway server history).world.notices ≡ 1
unfolding run serve strip_prefix ◌>>=◌ file_authorize restart_response restart on_store
    put_operation on_platform lookup insert perform watch_rollout get new_operation_id get_operation
    reconcile_sweep list_running_past_deadline now evaluate_rollout complete_operation resolve
    update_terminal spawn notify_started notify_resolved finish terminal_notices
history_messages = refl

abbrev done_op : Operation
done_op = record running_op { status = succeeded }

abbrev after : Server gateway
after = record { world = record idle { store = ("op_a1", done_op) ∷ [] }; authz = tt }

history_is_new : AllNew gateway view server history
unfolding run serve strip_prefix ◌>>=◌ file_authorize restart_response restart on_store
    put_operation on_platform lookup insert perform watch_rollout get new_operation_id get_operation
    reconcile_sweep list_running_past_deadline now evaluate_rollout complete_operation resolve
    update_terminal spawn notify_started notify_resolved finish
history_is_new = (refl, (tt, (tt, (tt, (refl, tt)))))

history_is_new_after : AllNew gateway view after history
unfolding run serve strip_prefix ◌>>=◌ file_authorize restart_response restart on_store
    put_operation on_platform lookup insert perform watch_rollout get new_operation_id get_operation
    reconcile_sweep list_running_past_deadline now evaluate_rollout complete_operation resolve
    update_terminal spawn notify_started notify_resolved finish
history_is_new_after = (refl, (tt, (tt, (tt, (refl, tt)))))

server-IsAnnounced : IsAnnounced new_in_memory cluster config view server.world
unfolding lookup terminal_notices
server-IsAnnounced = record { at = λ j. omega arith }

serve-Guarded_example :
    Guarded gateway rollout_request server (serve gateway rollout_request server)
serve-Guarded_example = serve-Guarded gateway rollout_request server refl

serve-Accepted_example :
    Accepted gateway view new_in_memory-IsLawful restart_request server
      (serve gateway restart_request server)
serve-Accepted_example =
    serve-Accepted gateway view new_in_memory-IsLawful restart_request server restart_accepted

restart_request-Decided : Decided gateway restart_request server true
unfolding strip_prefix file_authorize
restart_request-Decided = record {
  id = identity;
  verified = record { bearer = refl; token = refl };
  question = _;
  asks = refl;
  decision = _;
  answer = refl;
  allowed_is = refl;
}

restart_request-Takes : Takes gateway restart_request server restart_request-Decided.id
unfolding put_operation started_operation
restart_request-Takes = restart_taken _ refl (record { put = refl; patched = refl })

serve-Takes_example :
    (serve gateway restart_request server).0
    ≡ record { status = 202; body = started_body (new_operation_id "B2") }
serve-Takes_example =
    serve-Takes gateway restart_request server restart_request-Decided restart_request-Takes

run_events-IsAnnounced_example :
    IsAnnounced new_in_memory cluster config view (run gateway server history).world
run_events-IsAnnounced_example =
    run_events-IsAnnounced gateway view new_in_memory-IsLawful server history history_is_new
      server-IsAnnounced

server-IsToldExactly : IsToldExactly new_in_memory cluster config view server.world
unfolding lookup terminal_notices
server-IsToldExactly = record { exactly = λ j. refl }

run_events-IsToldExactly_example :
    IsToldExactly new_in_memory cluster config view (run gateway server history).world
run_events-IsToldExactly_example =
    run_events-IsToldExactly gateway view new_in_memory-IsLawful new_in_memory-IsFinal refl server
      history history_is_new server-IsToldExactly

run_events-IsTruthful_example :
    IsTruthful new_in_memory cluster config view (run gateway server history).world
run_events-IsTruthful_example =
    run_events-IsTruthful gateway view new_in_memory-IsLawful server history history_is_new tt

run_events_final_example : view (run gateway after history).world.store "op_a1" ≡ some done_op
unfolding lookup
run_events_final_example =
    run_events_final gateway view new_in_memory-IsLawful after history "op_a1" done_op
      history_is_new_after refl refl
