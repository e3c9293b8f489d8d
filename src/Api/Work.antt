-- ===== src/Api/Work.antt =====
-- The manager's work behind an answer 202.
use deploy_gateway.Base.{String, ◌≡◌, true, ok}
use deploy_gateway.Base.StateMonad.{◌>>=◌}
use deploy_gateway.Store.Api.{View, IsLawful}
use deploy_gateway.Authn.{GitHubIdentity}
use deploy_gateway.Manager.Start.{
  action_restart, new_operation_id, started_operation, restart, rollout,
}
use deploy_gateway.Manager.Started.{Started, restart-Started, Records, started_operation-Records}
use deploy_gateway.Manager.RolledOut.{RolledOut, rollout-RolledOut}
use deploy_gateway.Api.{
  RestartBody, RolloutBody, restarts, rolls_out, HttpRequest, started_body, Response, Deps, Server,
}
use deploy_gateway.Api.Handlers.{on_world, run_restart, run_rollout}
use deploy_gateway.Api.Status.{restart_response_accepts, rollout_response_accepts}
use deploy_gateway.Api.Guard.{Verified, Decided}

module _ (d : Deps) (view : View d.store) (lawful : IsLawful d.store view) where
  -- What the manager has done for an identity, with the id of its operation.
  pub data Done (req : HttpRequest) (s : Server d) (id : GitHubIdentity) (op_id : String)
      (s' : Server d) : Type 0 where
    restarted :
        (b : RestartBody)
        → req.route ≡ restarts (ok b)
        → Records req.ulid id action_restart b.namespace b.deployment "" ""
            (d.platform.clock s.world.platform)
            (started_operation req.ulid id action_restart b.namespace b.deployment "" ""
              (d.platform.clock s.world.platform))
        → Started d.store d.platform d.config view lawful
            (started_operation req.ulid id action_restart b.namespace b.deployment "" ""
              (d.platform.clock s.world.platform))
            (d.platform.restart_deployment b.namespace b.deployment)
            s.world
            s'.world
        → Done req s id op_id s'
    rolled_out :
        (b : RolloutBody)
        → req.route ≡ rolls_out (ok b)
        → RolledOut d.store d.platform d.config view lawful req.ulid id b.namespace b.deployment
            s.world op_id b.container b.image s'.world
        → Done req s id op_id s'

  -- The answer 202, and what stands behind it.
  pub record Accepted (req : HttpRequest) (s : Server d) (r : Response × Server d) : Type 0 where
    pub decided : Decided d req s true
    pub op_id : String
    pub id_is : op_id ≡ new_operation_id req.ulid
    pub body : r.0.body ≡ started_body op_id
    pub done : Done req s decided.id op_id r.1

  -- A method that answers 202 only for an accepted request, from every state of the authorizer.
  module _ (req : HttpRequest) (s : Server d) (id : GitHubIdentity) (v : Verified d req id) where
    pub run_restart-Accepted :
        (b : RestartBody) (z : d.authz.State)
        → req.route ≡ restarts (ok b)
        → (gate : Decided d req s true) → gate.id ≡ id
        → (run_restart d req.ulid id b (record s { authz = z })).0.status ≡ 202
        → Accepted req s (run_restart d req.ulid id b (record s { authz = z }))
    unfolding run_restart ◌>>=◌ on_world started_operation restart
    run_restart-Accepted b z route gate same h =
        let (op_id, returned, body) =
          restart_response_accepts
            (restart d.store d.platform d.config req.ulid id b.namespace b.deployment s.world).0
            h in
        let (id_is, started) =
          restart-Started d.store d.platform d.config view lawful req.ulid id b.namespace
            b.deployment s.world op_id returned in
        record {
          decided = gate;
          op_id = op_id;
          id_is = id_is;
          body = body;
          done = rw same (
              restarted b route
                (started_operation-Records req.ulid id action_restart b.namespace b.deployment "" ""
                  _)
                started);
        }

    pub run_rollout-Accepted :
        (b : RolloutBody) (z : d.authz.State)
        → req.route ≡ rolls_out (ok b)
        → (gate : Decided d req s true) → gate.id ≡ id
        → (run_rollout d req.ulid id b (record s { authz = z })).0.status ≡ 202
        → Accepted req s (run_rollout d req.ulid id b (record s { authz = z }))
    unfolding run_rollout ◌>>=◌ on_world rollout
    run_rollout-Accepted b z route gate same h =
        let (op_id, returned, body) =
          rollout_response_accepts
            (rollout d.store d.platform d.config req.ulid id b.namespace b.deployment b.container
              b.image s.world).0
            h in
        let done =
          rollout-RolledOut d.store d.platform d.config view lawful req.ulid id b.namespace
            b.deployment s.world op_id b.container b.image returned in
        record {
          decided = gate;
          op_id = op_id;
          id_is = done.id_is;
          body = body;
          done = rw same (rolled_out b route done);
        }
