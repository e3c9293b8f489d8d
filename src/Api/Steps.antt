-- ===== src/Api/Steps.antt =====
-- The HTTP server as a part of the gateway: a request takes only such steps as the manager does, so the
-- invariants of the chat hold through every history of requests and of the manager's own calls.
use deploy_gateway.Base.{
  String, ◌==◌, ◌≡◌, ◌∙◌, ap, refl, Bool, true, false, ◌||◌, Option, none, some, Result, ok, err,
  GoError, if◌then◌else◌,
}
use deploy_gateway.Base.Text.{has_prefix, trim_prefix}
use deploy_gateway.Base.StateMonad.{◌>>=◌}
use deploy_gateway.Store.Api.{View, IsLawful}
use deploy_gateway.Authn.{GitHubIdentity}
use deploy_gateway.Authz.{Decision}
use deploy_gateway.Manager.World.{World, on_store, now}
use deploy_gateway.Manager.Start.{new_operation_id}
use deploy_gateway.Manager.Steps.{Reach, here, next, quiet}
use deploy_gateway.Manager.Steps.Starting.{put-Reach, restart-Reach, rollout-Reach}
use deploy_gateway.Manager.Steps.Reconciling.{get-Safe}
use deploy_gateway.Api.{
  RestartBody, RolloutBody, Route, healthz, readyz, restarts, rolls_out, gets_operation,
  HttpRequest, Response, Deps, Server,
}
use deploy_gateway.Api.Responses.{denied_operation}
use deploy_gateway.Api.Handlers.{
  H, on_world, on_authz, record_denied, after_decision, authorize, run_restart, run_rollout,
  handle_restart, handle_rollout, handle_get_operation, handle_readyz, handle, with_identity,
  authenticate, routed, serve, store_readiness, authz_readiness,
}

module _ (d : Deps) (view : View d.store) (lawful : IsLawful d.store view) where
  abbrev Goes : World d.store d.platform → World d.store d.platform → Type 0
  Goes = Reach d.store d.platform d.config view

  module _ (req : HttpRequest) (s : Server d)
      (new : view s.world.store (new_operation_id req.ulid) ≡ none) where
    -- The method ends in a world that is reached from the one before the request.
    abbrev Ends : H d Response → Type 0
    Ends m = (z : d.authz.State) → Goes s.world (m (record s { authz = z })).1.world

    Ends-if : (b : Bool) (m n : H d Response) → Ends m → Ends n → Ends (if b then m else n)
    Ends-if true m n p q = p
    Ends-if false m n p q = q

    run_restart-Ends :
        (id : GitHubIdentity) (body : RestartBody) → Ends (run_restart d req.ulid id body)
    unfolding run_restart ◌>>=◌ on_world
    run_restart-Ends id body z =
        restart-Reach d.store d.platform d.config view lawful req.ulid id body.namespace
          body.deployment s.world new

    run_rollout-Ends :
        (id : GitHubIdentity) (body : RolloutBody) → Ends (run_rollout d req.ulid id body)
    unfolding run_rollout ◌>>=◌ on_world
    run_rollout-Ends id body z =
        rollout-Reach d.store d.platform d.config view lawful req.ulid id body.namespace
          body.deployment s.world body.container body.image new

    record_denied-Reach :
        (id : GitHubIdentity) (action ns dep container image reason : String)
        → Goes s.world (record_denied d req.ulid id action ns dep container image reason s.world).1
    unfolding record_denied ◌>>=◌ now denied_operation
    record_denied-Reach id action ns dep container image reason =
        put-Reach d.store d.platform d.config view lawful s.world
          (denied_operation req.ulid id action ns dep container image reason
            (d.platform.clock s.world.platform))
          new refl

    after_decision-Ends :
        (id : GitHubIdentity) (action ns dep container image : String) (m : H d Response)
        (dec : Result Decision)
        → Ends m
        → Ends (after_decision d req.ulid id action ns dep container image m dec)
    unfolding after_decision ◌>>=◌ on_world
    after_decision-Ends id action ns dep container image m (err e) p z = here
    after_decision-Ends id action ns dep container image m (ok dec) p z =
        Ends-if dec.allowed _ _ p
          (λ z. record_denied-Reach id action ns dep container image dec.reason) z

    authorize-Ends :
        (id : GitHubIdentity) (action ns dep container image : String) (m : H d Response)
        → Ends m
        → Ends (authorize d req.ulid id action ns dep container image m)
    unfolding authorize ◌>>=◌ on_authz
    authorize-Ends id action ns dep container image m p z =
        after_decision-Ends id action ns dep container image m _ p _

    handle-Ends : (id : GitHubIdentity) (route : Route) → Ends (handle d req.ulid id route)
    unfolding handle handle_restart handle_rollout handle_get_operation ◌>>=◌ on_world
    handle-Ends id healthz z = here
    handle-Ends id readyz z = here
    handle-Ends id (gets_operation op_id) z =
        (get-Safe d.store d.platform d.config view lawful op_id).at s.world
    handle-Ends id (restarts (err e)) z = here
    handle-Ends id (restarts (ok body)) z =
        Ends-if (body.namespace == "" || body.deployment == "") _ _ (λ z. here)
          (authorize-Ends id _ _ _ _ _ _ (run_restart-Ends id body)) z
    handle-Ends id (rolls_out (err e)) z = here
    handle-Ends id (rolls_out (ok body)) z =
        Ends-if (body.namespace == "" || (body.deployment == "" || body.image == "")) _ _
          (λ z. here) (authorize-Ends id _ _ _ _ _ _ (run_rollout-Ends id body)) z

    with_identity-Ends :
        (route : Route) (r : Result GitHubIdentity) → Ends (with_identity d req.ulid route r)
    unfolding with_identity ◌>>=◌
    with_identity-Ends route (err e) z = here
    with_identity-Ends route (ok id) z = handle-Ends id route z

    authenticate-Ends : Ends (authenticate d req)
    unfolding authenticate ◌>>=◌
    authenticate-Ends =
        Ends-if (has_prefix req.authorization "Bearer ") _ _
          (with_identity-Ends req.route (d.verify (trim_prefix req.authorization "Bearer ")))
          (λ z. here)

    readiness-Same :
        (failure : Option GoError) (z : Server d) → (store_readiness d failure z).1.world ≡ z.world
    unfolding store_readiness authz_readiness ◌>>=◌ on_authz
    readiness-Same (some e) z = refl
    readiness-Same none z = by_ready d.ready
      where
        by_ready :
            (r : Option (d.authz.State → Option GoError × d.authz.State))
            → (authz_readiness d r z).1.world ≡ z.world
        by_ready none = refl
        by_ready (some ready) = refl

    handle_readyz-Ends : Ends (handle_readyz d)
    unfolding handle_readyz ◌>>=◌ on_world on_store
    handle_readyz-Ends z = next here (
        quiet
          (λ j.
            ap (λ (w : World d.store d.platform). view w.store j) (readiness-Same _ _)
            ∙ lawful.view-ping s.world.store j)
          (ap (λ (w : World d.store d.platform). w.notices) (readiness-Same _ _)))

    routed-Ends : (route : Route) → Ends (routed d req route)
    unfolding routed ◌>>=◌
    routed-Ends healthz z = here
    routed-Ends readyz z = handle_readyz-Ends z
    routed-Ends (restarts body) z = authenticate-Ends z
    routed-Ends (rolls_out body) z = authenticate-Ends z
    routed-Ends (gets_operation op_id) z = authenticate-Ends z

    -- Every request whose drawn id is not in the store takes only such steps.
    pub serve-Reach : Goes s.world (serve d req s).1.world
    unfolding serve
    serve-Reach = routed-Ends req.route s.authz
