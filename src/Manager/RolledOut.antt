-- ===== src/Manager/RolledOut.antt =====
-- What `Rollout` promises when it returns no error.
use mathlib.Core.Path.{subst}
use deploy_gateway.Base.{
  String, ◌==◌, ◌≡◌, refl, Bool, true, false, none, some, List, [], ◌∷◌, Result, ok, err, GoError,
  sym, is_ambiguous, ◌<>◌, if◌then◌else◌,
}
use deploy_gateway.Base.StateMonad.{pure, ◌>>=◌}
use deploy_gateway.Store.Api.{Store, View, IsLawful}
use deploy_gateway.Kube.{Container, Deployment}
use deploy_gateway.Authn.{GitHubIdentity}
use deploy_gateway.Manager.Platform.{Platform}
use deploy_gateway.Manager.World.{Config, World, on_store, on_platform, now}
use deploy_gateway.Manager.Start.{
  action_rollout, new_operation_id, only_container, container_of, with_resolved, resolve_container,
  rollout, rollout_container, record_failed_rollout, err_ambiguous_container, started_operation,
  Outcome, returns, panics,
}
use deploy_gateway.Manager.Started.{Started, after_put-Started, Records, started_operation-Records}

module _ (S : Store) (P : Platform) (c : Config) (view : View S) (lawful : IsLawful S view) where
  module _ (ulid : String) (id : GitHubIdentity) (namespace deployment : String) (w : World S P)
      (op_id : String) where
    rollout_container-Started :
        (container image : String)
        → (v : World S P)
        → (rollout_container S P c ulid id namespace deployment container image v).0
          ≡ returns op_id none
        → let op =
            started_operation ulid id action_rollout namespace deployment container image
              (P.clock v.platform) in
          (op_id ≡ op.operation_id)
          × Started S P c view lawful op
              (P.rollout_deployment namespace deployment container image)
              v
              (rollout_container S P c ulid id namespace deployment container image v).1
    unfolding rollout_container ◌>>=◌ now on_store
    rollout_container-Started container image v h =
        after_put-Started S P c view lawful _ _ v op_id _ refl h

    -- The container of a rollout: the one of the request, or else the only one of the deployment, which
    -- has a name.
    pub data Chosen (container chosen : String) (v : World S P) : Type 0 where
      named : (container == "") ≡ false → chosen ≡ container → v ≡ w → Chosen container chosen v
      only_one :
          (container == "") ≡ true
          → (dep : Deployment) → (only : Container)
          → (P.get_deployment namespace deployment w.platform).0 ≡ ok dep
          → dep.containers ≡ only ∷ []
          → chosen ≡ only.name
          → (chosen == "") ≡ false
          → v ≡ record w { platform = (P.get_deployment namespace deployment w.platform).1 }
          → Chosen container chosen v

    -- What a rollout that returns no error has done.
    pub record RolledOut (container image : String) (w' : World S P) : Type 0 where
      pub chosen : String
      pub before : World S P
      pub choice : Chosen container chosen before
      pub id_is : op_id ≡ new_operation_id ulid
      pub recorded :
          Records ulid id action_rollout namespace deployment chosen image
            (P.clock before.platform)
            (started_operation ulid id action_rollout namespace deployment chosen image
              (P.clock before.platform))
      pub started :
          Started S P c view lawful
            (started_operation ulid id action_rollout namespace deployment chosen image
              (P.clock before.platform))
            (P.rollout_deployment namespace deployment chosen image)
            before
            w'

    only_container-ok :
        (cs : List Container) (name : String)
        → only_container namespace deployment cs ≡ ok name
        → (only : Container) × (cs ≡ only ∷ []) × (name ≡ only.name)
    unfolding only_container
    only_container-ok [] name h = cc
    only_container-ok (x ∷ []) name h = (x, refl, cc)
    only_container-ok (x ∷ y ∷ cs) name h = cc

    with_resolved_error :
        (image : String) (e : GoError) (v : World S P)
        → (with_resolved S P c ulid id namespace deployment image (err e) v).0 ≡ returns op_id none
        → ⊥
    unfolding with_resolved ◌>>=◌
    with_resolved_error image e v h = by_kind (is_ambiguous e) h
      where
        by_kind :
            (b : Bool)
            → ((if b then pure (returns "" (some err_ambiguous_container)) else (do
              op_id ←
                  record_failed_rollout S P c ulid id namespace deployment "" image
                    "K8S_PATCH_FAILED"
                    ("resolve container: " <> e.message)
              pure (returns op_id (some e))))
                v).0
              ≡ returns op_id none
            → ⊥
        by_kind true k = cc
        by_kind false k = cc

    with_resolved_name :
        (image name : String) (v : World S P) (empty : Bool)
        → (name == "") ≡ empty
        → ((if empty
              then pure panics
              else rollout_container S P c ulid id namespace deployment name image)
            v).0
          ≡ returns op_id none
        → ((name == "") ≡ false)
          × ((rollout_container S P c ulid id namespace deployment name image v).0
              ≡ returns op_id none)
          × ((if empty
                  then pure panics
                  else rollout_container S P c ulid id namespace deployment name image)
                v
              ≡ rollout_container S P c ulid id namespace deployment name image v)
    unfolding ◌>>=◌
    with_resolved_name image name v true e h = cc
    with_resolved_name image name v false e h = (e, h, refl)

    with_resolved-RolledOut :
        (container image : String) (found : Result Deployment) (r : Result String)
        → (container == "") ≡ true
        → (P.get_deployment namespace deployment w.platform).0 ≡ found
        → container_of namespace deployment found ≡ r
        → let v = record w { platform = (P.get_deployment namespace deployment w.platform).1 } in
          (with_resolved S P c ulid id namespace deployment image r v).0 ≡ returns op_id none
          → RolledOut container image (with_resolved S P c ulid id namespace deployment image r v).1
    unfolding with_resolved container_of ◌>>=◌ started_operation
    with_resolved-RolledOut container image found (err e) empty get r_is h =
        elim (with_resolved_error image e _ h) [ ]
    with_resolved-RolledOut container image (err e) (ok name) empty get r_is h = cc
    with_resolved-RolledOut container image (ok dep) (ok name) empty get r_is h =
        let (full, k, same) = with_resolved_name image name _ (name == "") refl h in
        let (only, one, name_is) = only_container-ok dep.containers name r_is in
        let (id_is, started) = rollout_container-Started name image _ k in
        record {
          chosen = name;
          before = _;
          choice = only_one empty dep only get one name_is full refl;
          id_is = id_is;
          recorded =
              started_operation-Records ulid id action_rollout namespace deployment _ image _;
          started =
              subst
                (λ (o : Outcome × World S P).
                  Started S P c view lawful
                    (started_operation ulid id action_rollout namespace deployment name image
                      (P.clock (P.get_deployment namespace deployment w.platform).1))
                    (P.rollout_deployment namespace deployment name image)
                    (record w { platform = (P.get_deployment namespace deployment w.platform).1 })
                    o.1)
                (sym same) started;
        }

    rollout_split :
        (container image : String) (b : Bool)
        → (container == "") ≡ b
        → let m =
            if b
            then (do
              r ← resolve_container S P c namespace deployment
              with_resolved S P c ulid id namespace deployment image r)
            else rollout_container S P c ulid id namespace deployment container image in
          (m w).0 ≡ returns op_id none → RolledOut container image (m w).1
    unfolding resolve_container ◌>>=◌ on_platform started_operation
    rollout_split container image true e h =
        with_resolved-RolledOut container image (P.get_deployment namespace deployment w.platform).0
          _ e refl refl h
    rollout_split container image false e h =
        let (id_is, started) = rollout_container-Started container image w h in
        record {
          chosen = container;
          before = w;
          choice = named e refl refl;
          id_is = id_is;
          recorded =
              started_operation-Records ulid id action_rollout namespace deployment _ image _;
          started = started;
        }

    -- A rollout that returns no error, over a store that keeps its promises, has stored its operation,
    -- running, under the id that it draws, the cluster has taken the patch, and there is one more watcher for
    -- it; all this for the container that the request names, or for the only container of the deployment if
    -- the request names none, and that container has a name.
    pub rollout-RolledOut :
        (container image : String)
        → (rollout S P c ulid id namespace deployment container image w).0 ≡ returns op_id none
        → RolledOut container image (rollout S P c ulid id namespace deployment container image w).1
    unfolding rollout
    rollout-RolledOut container image h = rollout_split container image _ refl h
