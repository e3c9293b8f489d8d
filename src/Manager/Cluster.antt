-- ===== src/Manager/Cluster.antt =====
-- The manager on the client of internal/kube/client.go.
use deploy_gateway.Base.{ℕ, String, ◌≡◌, ◌≢◌, Bool, none}
use deploy_gateway.Store.Api.{Store, View, IsLawful}
use deploy_gateway.Authn.{GitHubIdentity}
use deploy_gateway.Kube.Stamp.{restart_stamp}
use deploy_gateway.Kube.Patch.Laws.{Says}
use deploy_gateway.Kube.Client.{
  Deployments, restart_deployment, rollout_deployment, get_deployment, watch_deployment,
}
use deploy_gateway.Kube.Client.Laws.{Retries}
use deploy_gateway.Manager.Platform.{Platform}
use deploy_gateway.Manager.World.{Config, World}
use deploy_gateway.Manager.RolledOut.{Chosen}

-- The platform of a client, with the sleep and the context of the process.
abbrev pub client_platform :
    (D : Deployments) → (ℕ → D.State → D.State) → (D.State → Bool) → Platform
client_platform D elapse caller_done = record {
  State = D.State;
  restart_deployment = restart_deployment D;
  rollout_deployment = rollout_deployment D;
  get_deployment = get_deployment D;
  watch_deployment = watch_deployment D;
  clock = D.clock;
  elapse = elapse;
  caller_done = caller_done;
}

module _ (D : Deployments) (elapse : ℕ → D.State → D.State) (caller_done : D.State → Bool)
    (retries : Retries D) where
  abbrev P : Platform
  P = client_platform D elapse caller_done

  module _ (S : Store) (c : Config) (view : View S) (lawful : IsLawful S view) (ulid : String)
      (id : GitHubIdentity) (namespace deployment : String) (w : World S P) (op_id : String) where
    -- What a rollout on a client that returns no error made the API server take.
    pub record Patched (container image : String) (w' : World S P) : Type 0 where
      pub chosen : String
      pub before : World S P
      pub choice :
          Chosen S P c view lawful ulid id namespace deployment w op_id container chosen before
      pub named : chosen ≢ ""
      pub tagged : image ≢ ""
      pub at : D.State
      pub body : String
      pub says : Says D.is_print body (restart_stamp (D.clock at)) chosen image
      pub taken : D.patch namespace deployment body at ≡ (none, w'.platform)
