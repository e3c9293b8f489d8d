-- ===== src/Manager/Started.antt =====
-- What `Restart` promises when it returns no error, which the server answers with 202.
use deploy_gateway.Base.{
  ℕ, ◌<>◌, String, ◌≡◌, refl, ap, ◌∙◌, Option, none, some, [], ◌∷◌, ◌++◌, GoError, eq_refl,
}
use deploy_gateway.Base.StateMonad.{◌>>=◌}
use deploy_gateway.Base.Text.{to_lower}
use deploy_gateway.Store.{Time, Operation, running}
use deploy_gateway.Store.Api.{Store, View, IsLawful}
use deploy_gateway.Authn.{GitHubIdentity}
use deploy_gateway.Manager.Platform.{Platform}
use deploy_gateway.Manager.World.{Config, World, on_store, on_platform, now, notify_started, spawn}
use deploy_gateway.Manager.Start.{
  action_restart, new_operation_id, started_operation, returns, after_patch, after_put, restart,
}

-- The row of a new operation: it is running, it names the identity, the action and the target, and it was
-- requested now.
pub record Records (ulid : String) (id : GitHubIdentity)
    (action namespace deployment container image : String) (t : Time) (op : Operation)
    : Type 0 where
  pub operation_id : op.operation_id ≡ "op_" <> to_lower ulid
  pub repository : op.repository ≡ id.repository
  pub repository_id : op.repository_id ≡ id.repository_id
  pub repository_owner : op.repository_owner ≡ id.repository_owner
  pub actor : op.actor ≡ id.actor
  pub workflow : op.workflow ≡ id.workflow
  pub workflow_ref : op.workflow_ref ≡ id.workflow_ref
  pub run_id : op.run_id ≡ id.run_id
  pub run_attempt : op.run_attempt ≡ id.run_attempt
  pub event_name : op.event_name ≡ id.event_name
  pub action_is : op.action ≡ action
  pub namespace_is : op.namespace ≡ namespace
  pub deployment_is : op.deployment ≡ deployment
  pub container_is : op.container ≡ container
  pub image_is : op.image ≡ image
  pub target : op.ns_dep ≡ namespace <> ("#" <> deployment)
  pub status : op.status ≡ running
  pub no_error : (op.error_code ≡ "") × (op.error_message ≡ "")
  pub requested_at : op.requested_at ≡ t
  pub completed_at : op.completed_at ≡ none
  pub events :
      op.events ≡ record { event = "REQUESTED"; at = t } ∷ record { event = "STARTED"; at = t } ∷ []

pub started_operation-Records :
    (ulid : String) (id : GitHubIdentity) (action namespace deployment container image : String)
    (t : Time)
    → Records ulid id action namespace deployment container image t
        (started_operation ulid id action namespace deployment container image t)
unfolding started_operation new_operation_id
started_operation-Records ulid id action namespace deployment container image t = record {
  operation_id = refl;
  repository = refl;
  repository_id = refl;
  repository_owner = refl;
  actor = refl;
  workflow = refl;
  workflow_ref = refl;
  run_id = refl;
  run_attempt = refl;
  event_name = refl;
  action_is = refl;
  namespace_is = refl;
  deployment_is = refl;
  container_is = refl;
  image_is = refl;
  target = refl;
  status = refl;
  no_error = (refl, refl);
  requested_at = refl;
  completed_at = refl;
  events = refl;
}

module _ (S : Store) (P : Platform) (c : Config) (view : View S) (lawful : IsLawful S view) where
  -- The operation is stored, the cluster took its patch, and one watcher has been started for it.
  pub record Started (op : Operation) (patch : P.State → Option GoError × P.State)
      (w w' : World S P) : Type 0 where
    pub stored : view w'.store op.operation_id ≡ some op
    pub patched : (patch w.platform).0 ≡ none
    pub platform : w'.platform ≡ (patch w.platform).1
    pub msg : Option ℕ
    pub watched : w'.watchers ≡ w.watchers ++ (record { op = op; msg = msg } ∷ [])

  after_patch-Started :
      (op : Operation) (refused : Option GoError) (w : World S P) (id : String)
      → (after_patch S P c op refused w).0 ≡ returns id none
      → (refused ≡ none)
        × (id ≡ op.operation_id)
        × ((after_patch S P c op refused w).1.store ≡ w.store)
        × ((after_patch S P c op refused w).1.platform ≡ w.platform)
        × ((msg : Option ℕ) × ((after_patch S P c op refused w).1.watchers
              ≡ w.watchers ++ (record { op = op; msg = msg } ∷ [])))
  unfolding after_patch ◌>>=◌ notify_started spawn
  after_patch-Started op (some e) w id h = cc
  after_patch-Started op none w id h = (refl, cc, refl, refl, (_, refl))

  pub after_put-Started :
      (op : Operation) (patch : P.State → Option GoError × P.State) (w : World S P) (id : String)
      → (refused : Option GoError) → (S.put_operation op w.store).0 ≡ refused
      → (after_put S P c op patch refused (record w { store = (S.put_operation op w.store).1 })).0
        ≡ returns id none
      → (id ≡ op.operation_id)
        × Started op patch w
            (after_put S P c op patch refused
              (record w { store = (S.put_operation op w.store).1 })).1
  unfolding after_put ◌>>=◌ on_platform
  after_put-Started op patch w id (some e) put h = cc
  after_put-Started op patch w id none put h =
      let (patched, id_is, store, platform, (msg, watched)) =
        after_patch-Started op (patch w.platform).0 _ id h in
      (
        id_is,
        record {
          stored =
              ap (λ s. view s op.operation_id) store
              ∙ (lawful.view-put op w.store op.operation_id put
                  ∙ rw (eq_refl op.operation_id) refl);
          patched = patched;
          platform = platform;
          msg = msg;
          watched = watched;
        },
      )

  module _ (ulid : String) (id : GitHubIdentity) (namespace deployment : String) (w : World S P)
      (op_id : String) where
    -- A restart that returns no error has stored its operation, running, with the identity and the target
    -- of the request and under the id that it returns; the cluster has taken the patch; and there is one
    -- more watcher, for this operation. The store is one that keeps its promises.
    pub restart-Started :
        (restart S P c ulid id namespace deployment w).0 ≡ returns op_id none
        → let op =
            started_operation ulid id action_restart namespace deployment "" ""
              (P.clock w.platform) in
          (op_id ≡ op.operation_id)
          × Started op
              (P.restart_deployment namespace deployment)
              w
              (restart S P c ulid id namespace deployment w).1
    unfolding restart ◌>>=◌ now on_store
    restart-Started h = after_put-Started _ _ w op_id _ refl h
