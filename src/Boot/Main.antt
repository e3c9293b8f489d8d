-- ===== src/Boot/Main.antt =====
-- cmd/gateway/main.go, `main`: what the process is built from, up to the listener. The libraries that it
-- asks for a provider, a cluster and credentials are parameters.
pub mod Laws
use deploy_gateway.Base.{
  ℕ, ◌*◌, String, ◌<>◌, Bool, true, false, Option, none, some, GoError, Result, ok, err,
}
use deploy_gateway.Store.{second}
use deploy_gateway.Store.Dynamo.{new_dynamo_store}
use deploy_gateway.Authn.{new_verifier}
use deploy_gateway.Authz.Policy.{PolicySource}
use deploy_gateway.Kube.Client.{new_in_cluster}
use deploy_gateway.Manager.World
use deploy_gateway.Manager.Start.{new_manager}
use deploy_gateway.Notify.Http.{Transport}
use deploy_gateway.Notify.Notifier
use deploy_gateway.Notify.Notifier.{new_notifier}
use deploy_gateway.Boot.{Env, env_or, Backend, build_authorizer}

abbrev pub oidc_issuer : String
oidc_issuer = "https://token.actions.githubusercontent.com"

abbrev pub audience : String
audience = "https://gateway.tuando.app"

pub record Libraries : Type 1 where
  -- the table of `strconv.IsPrint`, for `%q`
  pub is_print : ℕ → Bool
  pub Provider : Type 0
  pub ClusterConfig : Type 0
  pub Clientset : Type 0
  pub AwsConfig : Type 0
  pub new_provider : String → Result Provider
  pub in_cluster_config : Result ClusterConfig
  pub new_for_config : ClusterConfig → Result Clientset
  pub load_default_config : Result AwsConfig

-- What `main` has built when it starts the sweeper and the listener.
pub record Process (L : Libraries) : Type 0 where
  pub backend : Backend
  pub verifier : L.Provider × String
  pub cluster : L.Clientset
  pub store : L.AwsConfig × String
  pub notifier : Option Transport
  pub config : World.Config
  pub addr : String

-- The process exits with a line in the log, or comes to listen.
pub data Startup (L : Libraries) : Type 0 where
  exits : String → GoError → Startup L
  listens : Process L → Startup L

abbrev pub is_there : Option Transport → Bool
is_there none = false
is_there (some t) = true

abbrev pub notify_config : Env → Notifier.Config
notify_config env = record {
  bot_token = env "TELEGRAM_BOT_TOKEN";
  chat_id = env "TELEGRAM_CHAT_ID";
  api_base = env "TELEGRAM_API_BASE";
}

module _ (L : Libraries) where
  -- `if err != nil { logger.Error(what, "err", err); os.Exit(1) }`
  or_exit : {A : Type 0} → String → Result A → (A → Startup L) → Startup L
  or_exit what (err e) next = exits what e
  or_exit what (ok a) next = next a

  built : Env → Backend → L.Provider × String → L.Clientset → L.AwsConfig × String → Process L
  unfolding new_notifier new_manager
  built env backend verifier cluster store =
      let notifier = new_notifier (notify_config env) in
      record {
        backend = backend;
        verifier = verifier;
        cluster = cluster;
        store = store;
        notifier = notifier;
        config = new_manager (600 * second) (is_there notifier);
        addr = ":" <> env_or env "PORT" "8080";
      }

  -- `main`, up to the listener
  unfoldable pub start_process : PolicySource → Env → Startup L
  unfolding or_exit built build_authorizer new_verifier new_in_cluster new_dynamo_store
  start_process files env =
      or_exit "authorization backend"
        (build_authorizer L.is_print files env (env "AUTHZ_BACKEND")
          (env_or env "POLICY_PATH" "/etc/gateway/policy.yaml"))
        λ backend.
          or_exit "oidc verifier" (new_verifier L.new_provider oidc_issuer audience) λ verifier.
            or_exit "kubernetes client" (new_in_cluster L.in_cluster_config L.new_for_config)
              λ cluster.
                or_exit "dynamo store"
                  (new_dynamo_store L.load_default_config
                    (env_or env "DYNAMO_TABLE" "deploy-gateway-operations"))
                  λ store. listens (built env backend verifier cluster store)
