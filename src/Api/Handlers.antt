-- ===== src/Api/Handlers.antt =====
-- internal/api/server.go: the middleware and the handlers.
use deploy_gateway.Base.{
  String, ◌==◌, ◌||◌, Option, none, some, GoError, Result, ok, err, if◌then◌else◌,
}
use deploy_gateway.Base.Text.{has_prefix, trim_prefix}
use deploy_gateway.Base.StateMonad.{State, pure, ◌>>=◌, ◌>>◌}
use deploy_gateway.Authn.{GitHubIdentity}
use deploy_gateway.Authz.{Decision}
use deploy_gateway.Manager.World.{M, on_store, now}
use deploy_gateway.Manager.Start.{action_restart, action_rollout, restart, rollout}
use deploy_gateway.Manager.Reconcile.{get}
use deploy_gateway.Api.{
  RestartBody, RolloutBody, Route, healthz, readyz, restarts, rolls_out, gets_operation,
  HttpRequest, plain_ok, Response, Deps, Server,
}
use deploy_gateway.Api.Responses.{
  write_error, denied_operation, restart_response, rollout_response, operation_response, question,
}

module _ (d : Deps) where
  abbrev pub H : Type 0 → Type 0
  H A = State (Server d) A

  unfoldable pub on_world : {A : Type 0} → M d.store d.platform A → H A
  on_world m s = let (a, w) = m s.world in (a, record s { world = w })

  unfoldable pub on_authz : {A : Type 0} → (d.authz.State → A × d.authz.State) → H A
  on_authz f s = let (a, z) = f s.authz in (a, record s { authz = z })

  -- `recordDenied`. A row that cannot be written is only logged.
  unfoldable pub record_denied :
      String
      → GitHubIdentity
      → String
      → String
      → String
      → String
      → String
      → String
      → M d.store d.platform (Unit {0})
  unfolding denied_operation
  record_denied ulid id action namespace deployment container image reason = do
    t ← now d.store d.platform
    refused ← on_store d.store d.platform (
        d.store.put_operation
          (denied_operation ulid id action namespace deployment container image reason t))
    pure tt

  -- The handler goes on with `next` if `authorize` returns true.
  unfoldable pub after_decision :
      String
      → GitHubIdentity
      → String
      → String
      → String
      → String
      → String
      → H Response
      → Result Decision
      → H Response
  unfolding record_denied
  after_decision ulid id action namespace deployment container image next (err e) =
      pure (write_error 503 "AUTHZ_UNAVAILABLE" "authorization service unavailable")
  after_decision ulid id action namespace deployment container image next (ok dec) =
      if dec.allowed then next else (do
        on_world (record_denied ulid id action namespace deployment container image dec.reason)
        pure (write_error 403 "FORBIDDEN" "not allowed"))

  -- `authorize`
  unfoldable pub authorize :
      String → GitHubIdentity → String → String → String → String → String → H Response → H Response
  unfolding after_decision on_authz
  authorize ulid id action namespace deployment container image next = do
    dec ← on_authz (d.authz.authorize (question id action namespace deployment))
    after_decision ulid id action namespace deployment container image next dec

  -- `handleRestart` behind the authorization, and `handleRollout` there
  unfoldable pub run_restart : String → GitHubIdentity → RestartBody → H Response
  unfolding on_world
  run_restart ulid id body = do
    outcome ← on_world (restart d.store d.platform d.config ulid id body.namespace body.deployment)
    pure (restart_response outcome)

  unfoldable pub run_rollout : String → GitHubIdentity → RolloutBody → H Response
  unfolding on_world
  run_rollout ulid id body = do
    outcome ← on_world (
        rollout d.store d.platform d.config ulid id body.namespace body.deployment body.container
          body.image)
    pure (rollout_response outcome)

  unfoldable pub handle_restart : String → GitHubIdentity → Result RestartBody → H Response
  unfolding authorize run_restart
  handle_restart ulid id (err e) =
      pure (write_error 400 "INVALID_REQUEST" "namespace and deployment are required")
  handle_restart ulid id (ok body) =
      if body.namespace == "" || body.deployment == ""
      then pure (write_error 400 "INVALID_REQUEST" "namespace and deployment are required")
      else authorize ulid id action_restart body.namespace body.deployment "" ""
          (run_restart ulid id body)

  unfoldable pub handle_rollout : String → GitHubIdentity → Result RolloutBody → H Response
  unfolding authorize run_rollout
  handle_rollout ulid id (err e) =
      pure (write_error 400 "INVALID_REQUEST" "namespace, deployment and image are required")
  handle_rollout ulid id (ok body) =
      if body.namespace == "" || (body.deployment == "" || body.image == "")
      then pure (write_error 400 "INVALID_REQUEST" "namespace, deployment and image are required")
      else authorize ulid id action_rollout body.namespace body.deployment body.container body.image
          (run_rollout ulid id body)

  unfoldable pub handle_get_operation : String → H Response
  unfolding on_world
  handle_get_operation op_id = do
    found ← on_world (get d.store d.platform d.config op_id)
    pure (operation_response found)

  unfoldable pub authz_readiness :
      Option (d.authz.State → Option GoError × d.authz.State) → H Response
  unfolding on_authz
  authz_readiness none = pure (record { status = 200; body = plain_ok })
  authz_readiness (some ready) = do
    failure ← on_authz ready
    pure (elim failure [
      | some e ↦ write_error 503 "AUTHZ_UNAVAILABLE" "authorization service not reachable"
      | none ↦ record { status = 200; body = plain_ok }
    ])

  unfoldable pub store_readiness : Option GoError → H Response
  unfolding authz_readiness
  store_readiness (some e) = pure (write_error 503 "STORE_UNAVAILABLE" "store not reachable")
  store_readiness none = authz_readiness d.ready

  unfoldable pub handle_readyz : H Response
  unfolding store_readiness on_world
  handle_readyz = do
    failure ← on_world (on_store d.store d.platform d.store.ping)
    store_readiness failure

  -- The routes behind `authenticate`, for an identity, and the answer to a bad token.
  unfoldable pub handle : String → GitHubIdentity → Route → H Response
  unfolding handle_restart handle_rollout handle_get_operation
  handle ulid id (restarts body) = handle_restart ulid id body
  handle ulid id (rolls_out body) = handle_rollout ulid id body
  handle ulid id (gets_operation op_id) = handle_get_operation op_id
  handle ulid id _ = pure (record { status = 200; body = plain_ok })

  unfoldable pub with_identity : String → Route → Result GitHubIdentity → H Response
  unfolding handle
  with_identity ulid route (err e) = pure (write_error 401 "UNAUTHENTICATED" "invalid token")
  with_identity ulid route (ok id) = handle ulid id route

  -- `authenticate`
  unfoldable pub authenticate : HttpRequest → H Response
  unfolding with_identity
  authenticate req =
      if has_prefix req.authorization "Bearer "
      then with_identity req.ulid req.route (d.verify (trim_prefix req.authorization "Bearer "))
      else pure (write_error 401 "UNAUTHENTICATED" "missing bearer token")

  unfoldable pub routed : HttpRequest → Route → H Response
  unfolding handle_readyz authenticate
  routed req healthz = pure (record { status = 200; body = plain_ok })
  routed req readyz = handle_readyz
  routed req _ = authenticate req

  -- `NewRouter`
  unfoldable pub serve : HttpRequest → H Response
  unfolding routed
  serve req = routed req req.route
