-- ===== src/Api/Served.antt =====
-- A request that every part of the gateway lets through.
use mathlib.Core.Option.{some-injective}
use deploy_gateway.Base.{
  String, ◌==◌, ◌≡◌, refl, ap, ◌∙◌, sym, Bool, true, false, ◌||◌, Option, none, some, ok, GoError,
  if◌then◌else◌,
}
use deploy_gateway.Base.StateMonad.{◌>>=◌}
use deploy_gateway.Store.{Operation}
use deploy_gateway.Authn.{GitHubIdentity}
use deploy_gateway.Authz.{Request, Decision}
use deploy_gateway.Manager.World.{World, on_store, on_platform, now}
use deploy_gateway.Manager.Start.{
  action_restart, action_rollout, new_operation_id, started_operation, returns, after_patch,
  after_put, restart, rollout, rollout_container,
}
use deploy_gateway.Api.{
  RestartBody, RolloutBody, restarts, rolls_out, HttpRequest, started_body, Response, Deps, Server,
}
use deploy_gateway.Api.Responses.{question, restart_response, rollout_response}
use deploy_gateway.Api.Handlers.{
  H, on_world, on_authz, after_decision, authorize, run_restart, run_rollout, handle_restart,
  handle_rollout, handle, with_identity, authenticate, serve,
}
use deploy_gateway.Api.Guard.{asked, writes, routed_write, Decided}

module _ (d : Deps) where
  -- The store takes the operation, and the cluster its patch.
  pub record Taken (op : Operation) (patch : d.platform.State → Option GoError × d.platform.State)
      (w : World d.store d.platform) : Type 0 where
    pub put : (d.store.put_operation op w.store).0 ≡ none
    pub patched : (patch w.platform).0 ≡ none

  -- The operation of the request is taken; a rollout names its container.
  pub data Takes (req : HttpRequest) (s : Server d) (id : GitHubIdentity) : Type 0 where
    restart_taken :
        (b : RestartBody)
        → req.route ≡ restarts (ok b)
        → Taken
            (started_operation req.ulid id action_restart b.namespace b.deployment "" ""
              (d.platform.clock s.world.platform))
            (d.platform.restart_deployment b.namespace b.deployment)
            s.world
        → Takes req s id
    rollout_taken :
        (b : RolloutBody)
        → req.route ≡ rolls_out (ok b)
        → (b.container == "") ≡ false
        → Taken
            (started_operation req.ulid id action_rollout b.namespace b.deployment b.container
              b.image
              (d.platform.clock s.world.platform))
            (d.platform.rollout_deployment b.namespace b.deployment b.container b.image)
            s.world
        → Takes req s id

  after_put-Taken :
      (op : Operation) (patch : d.platform.State → Option GoError × d.platform.State)
      (w : World d.store d.platform)
      → Taken op patch w
      → (after_put d.store d.platform d.config op patch
          (d.store.put_operation op w.store).0
          (record w { store = (d.store.put_operation op w.store).1 })).0
        ≡ returns op.operation_id none
  unfolding after_put after_patch ◌>>=◌ on_platform
  after_put-Taken op patch w taken = rw taken.put (rw taken.patched refl)

  module _ (req : HttpRequest) (s : Server d) (id : GitHubIdentity) (z : d.authz.State) where
    run_restart-Taken :
        (b : RestartBody)
        → Taken
            (started_operation req.ulid id action_restart b.namespace b.deployment "" ""
              (d.platform.clock s.world.platform))
            (d.platform.restart_deployment b.namespace b.deployment)
            s.world
        → (run_restart d req.ulid id b (record s { authz = z })).0
          ≡ record { status = 202; body = started_body (new_operation_id req.ulid) }
    unfolding run_restart ◌>>=◌ on_world restart on_store now restart_response started_operation
    run_restart-Taken b taken = rw (after_put-Taken _ _ s.world taken) refl

    run_rollout-Taken :
        (b : RolloutBody)
        → (b.container == "") ≡ false
        → Taken
            (started_operation req.ulid id action_rollout b.namespace b.deployment b.container
              b.image
              (d.platform.clock s.world.platform))
            (d.platform.rollout_deployment b.namespace b.deployment b.container b.image)
            s.world
        → (run_rollout d req.ulid id b (record s { authz = z })).0
          ≡ record { status = 202; body = started_body (new_operation_id req.ulid) }
    unfolding run_rollout ◌>>=◌ on_world rollout rollout_container on_store now rollout_response
        started_operation
    run_rollout-Taken b named taken = rw named (rw (after_put-Taken _ _ s.world taken) refl)

  full_question :
      (t : Bool) (x q : Request) → (if t then none else some x) ≡ some q → (t ≡ false) × (x ≡ q)
  full_question true x q h = cc
  full_question false x q h = (refl, some-injective _ _ h)

  authorize_allowed :
      (req : HttpRequest) (s : Server d) (id : GitHubIdentity)
      (action ns dep container image : String) (next : H d Response) (dec : Decision)
      → (d.authz.authorize (question id action ns dep) s.authz).0 ≡ ok dec
      → dec.allowed ≡ true
      → let q = question id action ns dep in
        authorize d req.ulid id action ns dep container image next s
        ≡ next (record s { authz = (d.authz.authorize q s.authz).1 })
  unfolding authorize after_decision ◌>>=◌ on_authz
  authorize_allowed req s id action ns dep container image next dec answer allowed =
      rw answer (rw allowed refl)

  module _ (req : HttpRequest) (s : Server d) (gate : Decided d req s true) where
    answer_to :
        (q : Request) → q ≡ gate.question → (d.authz.authorize q s.authz).0 ≡ ok gate.decision
    answer_to q e = rw e gate.answer

    -- A full body whose question is the one that the authorizer allows.
    handle-Takes :
        Takes req s gate.id
        → (handle d req.ulid gate.id req.route s).0
          ≡ record { status = 202; body = started_body (new_operation_id req.ulid) }
    unfolding handle handle_restart handle_rollout
    handle-Takes (restart_taken b route taken) =
        let asks : asked gate.id (restarts (ok b)) ≡ some gate.question =
          sym (ap (asked gate.id) route) ∙ gate.asks in
        let (full, q) = full_question (b.namespace == "" || b.deployment == "") _ _ asks in
        rw route (
          rw full (
            ap (λ (r : Response × Server d). r.0)
              (authorize_allowed req s gate.id action_restart b.namespace b.deployment "" ""
                (run_restart d req.ulid gate.id b) gate.decision (answer_to _ q) gate.allowed_is)
            ∙ run_restart-Taken req s gate.id _ b taken))
    handle-Takes (rollout_taken b route named taken) =
        let asks : asked gate.id (rolls_out (ok b)) ≡ some gate.question =
          sym (ap (asked gate.id) route) ∙ gate.asks in
        let (full, q) =
          full_question (b.namespace == "" || (b.deployment == "" || b.image == "")) _ _ asks in
        rw route (
          rw full (
            ap (λ (r : Response × Server d). r.0)
              (authorize_allowed req s gate.id action_rollout b.namespace b.deployment b.container
                b.image (run_rollout d req.ulid gate.id b) gate.decision (answer_to _ q)
                gate.allowed_is)
            ∙ run_rollout-Taken req s gate.id _ b named taken))

    behind_authenticate :
        writes req.route ≡ true → serve d req s ≡ handle d req.ulid gate.id req.route s
    unfolding serve authenticate with_identity
    behind_authenticate w =
        rw (routed_write d req req.route w) (rw gate.verified.bearer (rw gate.verified.token refl))

    -- A restart, or a rollout that names its container, whose bearer token verifies, that the authorizer
    -- allows, whose operation the store takes and whose patch the cluster takes, is answered with 202
    -- and the id of its operation.
    pub serve-Takes :
        Takes req s gate.id
        → (serve d req s).0
          ≡ record { status = 202; body = started_body (new_operation_id req.ulid) }
    serve-Takes taken =
        ap (λ (r : Response × Server d). r.0) (behind_authenticate (write_of taken))
        ∙ handle-Takes taken
      where
        write_of : Takes req s gate.id → writes req.route ≡ true
        write_of (restart_taken b route t) = rw route refl
        write_of (rollout_taken b route named t) = rw route refl
