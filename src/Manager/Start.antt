-- ===== src/Manager/Start.antt =====
-- internal/operation/manager.go: `Restart` and `Rollout`. The random part of an operation id is an
-- argument, since `ulid.Make` is not part of the program.
use deploy_gateway.Base.{
  ℕ, ◌+◌, ◌*◌, ◌/◌, String, ◌<>◌, ◌==◌, Bool, Option, none, some, List, [], ◌∷◌, GoError, Result,
  ok, err, wrap, new_error, ambiguous_container, is_ambiguous, eqb, if◌then◌else◌,
}
use deploy_gateway.Base.Text.{to_lower}
use deploy_gateway.Base.StateMonad.{pure, ◌>>=◌, ◌>>◌}
use deploy_gateway.Store.{Time, second, Operation, running, AuditEvent}
use deploy_gateway.Store.Api.{Store}
use deploy_gateway.Kube.{Container, Deployment}
use deploy_gateway.Authn.{GitHubIdentity}
use deploy_gateway.Manager.Platform.{Platform}
use deploy_gateway.Manager.World.{Config, M, on_store, on_platform, now, notify_started, spawn}
use deploy_gateway.Manager.Resolve.{fail_operation}

abbrev pub action_restart : String
action_restart = "deployment.restart"

abbrev pub action_rollout : String
action_rollout = "deployment.rollout"

abbrev pub err_ambiguous_container : GoError
err_ambiguous_container = record {
  kind = ambiguous_container;
  message = "deployment has multiple containers; container must be specified";
}

-- `NewManager`: a deadline of 0 means ten minutes. A nil notifier is `notify_enabled = false` already.
unfoldable pub new_manager : ℕ → Bool → Config
new_manager default_deadline notify_enabled = record {
  default_deadline = if eqb default_deadline 0 then 600 * second else default_deadline;
  notify_enabled = notify_enabled;
}

-- `NewOperationID`
unfoldable pub new_operation_id : String → String
unfolding to_lower
new_operation_id ulid = "op_" <> to_lower ulid

-- `now.Add(365 * 24 * time.Hour).Unix()`
unfoldable pub expires_at : Time → ℕ
expires_at t = (t + 31_536_000 * second) / second

abbrev event_at : String → Time → AuditEvent
event_at name t = record { event = name; at = t }

-- The operation that `Restart` and `Rollout` record; a restart has no container and no image.
unfoldable pub started_operation :
    String → GitHubIdentity → String → String → String → String → String → Time → Operation
unfolding new_operation_id expires_at
started_operation ulid id action namespace deployment container image t = record {
  operation_id = new_operation_id ulid;
  repository = id.repository;
  repository_id = id.repository_id;
  repository_owner = id.repository_owner;
  actor = id.actor;
  workflow = id.workflow;
  workflow_ref = id.workflow_ref;
  run_id = id.run_id;
  run_attempt = id.run_attempt;
  event_name = id.event_name;
  action = action;
  namespace = namespace;
  deployment = deployment;
  container = container;
  image = image;
  ns_dep = namespace <> "#" <> deployment;
  status = running;
  error_code = "";
  error_message = "";
  requested_at = t;
  completed_at = none;
  expires_at = expires_at t;
  events = event_at "REQUESTED" t ∷ event_at "STARTED" t ∷ [];
}

-- The operation of `recordFailedRollout`: it has no STARTED event, and no repository owner.
unfoldable pub failed_rollout_operation :
    String → GitHubIdentity → String → String → String → String → Time → Operation
unfolding started_operation
failed_rollout_operation ulid id namespace deployment container image t =
    record (started_operation ulid id action_rollout namespace deployment container image t) {
      repository_owner = "";
      events = event_at "REQUESTED" t ∷ [];
    }

-- What `Restart` and `Rollout` return: the operation id and an error. `panics` is a nil dereference.
pub data Outcome : Type 0 where
  returns : String → Option GoError → Outcome
  panics : Outcome

-- The `switch` of `resolveContainer`
unfoldable pub only_container : String → String → List Container → Result String
only_container namespace deployment [] =
    err (new_error ("deployment " <> namespace <> "/" <> deployment <> " has no containers"))
only_container namespace deployment (c ∷ []) = ok c.name
only_container namespace deployment (c ∷ d ∷ cs) = err err_ambiguous_container

unfoldable pub container_of : String → String → Result Deployment → Result String
unfolding only_container
container_of namespace deployment (err e) = err (wrap "get deployment" e)
container_of namespace deployment (ok dep) = only_container namespace deployment dep.containers

module _ (S : Store) (P : Platform) (c : Config) where
  -- After the patch: its error fails the operation, its success announces it and starts the watcher.
  unfoldable pub after_patch : Operation → Option GoError → M S P Outcome
  after_patch op (some e) = do
    fail_operation S P c op none "K8S_PATCH_FAILED" e.message
    pure (returns op.operation_id (some (wrap "patch deployment" e)))
  after_patch op none = do
    msg ← notify_started S P c op
    spawn S P op msg
    pure (returns op.operation_id none)

  unfoldable pub after_put :
      Operation → (P.State → Option GoError × P.State) → Option GoError → M S P Outcome
  unfolding after_patch
  after_put op patch (some e) = pure (returns "" (some (wrap "persist operation" e)))
  after_put op patch none = do refused ← on_platform S P patch; after_patch op refused

  unfoldable pub restart : String → GitHubIdentity → String → String → M S P Outcome
  unfolding started_operation after_put
  restart ulid id namespace deployment = do
    t ← now S P
    let op = started_operation ulid id action_restart namespace deployment "" "" t
    refused ← on_store S P (S.put_operation op)
    after_put op (P.restart_deployment namespace deployment) refused

  -- `Rollout`, once the container is known
  unfoldable pub rollout_container :
      String → GitHubIdentity → String → String → String → String → M S P Outcome
  unfolding started_operation after_put
  rollout_container ulid id namespace deployment container image = do
    t ← now S P
    let op = started_operation ulid id action_rollout namespace deployment container image t
    refused ← on_store S P (S.put_operation op)
    after_put op (P.rollout_deployment namespace deployment container image) refused

  unfoldable pub after_failed_put : Operation → String → String → Option GoError → M S P String
  after_failed_put op code message (some e) = pure ""
  after_failed_put op code message none = do
    fail_operation S P c op none code message
    pure op.operation_id

  -- `recordFailedRollout`
  unfoldable pub record_failed_rollout :
      String → GitHubIdentity → String → String → String → String → String → String → M S P String
  unfolding failed_rollout_operation after_failed_put
  record_failed_rollout ulid id namespace deployment container image code message = do
    t ← now S P
    let op = failed_rollout_operation ulid id namespace deployment container image t
    refused ← on_store S P (S.put_operation op)
    after_failed_put op code message refused

  -- `resolveContainer`
  unfoldable pub resolve_container : String → String → M S P (Result String)
  unfolding container_of
  resolve_container namespace deployment = do
    found ← on_platform S P (P.get_deployment namespace deployment)
    pure (container_of namespace deployment found)

  -- The branches of `Rollout` on what `resolveContainer` returned. An empty name with no error takes
  -- the branch that reads the message of the error.
  unfoldable pub with_resolved :
      String → GitHubIdentity → String → String → String → Result String → M S P Outcome
  unfolding record_failed_rollout rollout_container
  with_resolved ulid id namespace deployment image (err e) =
      if is_ambiguous e then pure (returns "" (some err_ambiguous_container)) else (do
        op_id ←
            record_failed_rollout ulid id namespace deployment "" image "K8S_PATCH_FAILED"
              ("resolve container: " <> e.message)
        pure (returns op_id (some e)))
  with_resolved ulid id namespace deployment image (ok resolved) =
      if resolved == ""
      then pure panics
      else rollout_container ulid id namespace deployment resolved image

  unfoldable pub rollout :
      String → GitHubIdentity → String → String → String → String → M S P Outcome
  unfolding resolve_container with_resolved rollout_container
  rollout ulid id namespace deployment container image =
      if container == ""
      then (do
        resolved ← resolve_container namespace deployment
        with_resolved ulid id namespace deployment image resolved)
      else rollout_container ulid id namespace deployment container image
