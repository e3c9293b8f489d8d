-- ===== src/Tests/Boot.antt =====
-- An environment for Keycloak, and one that lacks the secret.
use deploy_gateway.Base.{◌≡◌, ◌*◌, true, refl, String, ◌==◌, some, ok, new_error, if◌then◌else◌}
use deploy_gateway.Authz.Policy.{PolicySource}
use deploy_gateway.Keycloak.Http.{Config}
use deploy_gateway.Boot.{Env, kc_config, shadow_backend, require_keycloak_config}
use deploy_gateway.Boot.Laws.{require_keycloak_config_secret}
use deploy_gateway.Store.{second}
use deploy_gateway.Boot.Main.{Libraries, Process, start_process}
use deploy_gateway.Boot.Main.Laws.{Ready, start_process-Ready}
use deploy_gateway.Tests.Policies.{policy}

abbrev files : PolicySource
files = record { Bytes = String; read_file = λ path. ok path; unmarshal = λ raw. ok policy }

abbrev env : Env
env = λ key. if key == "KEYCLOAK_CLIENT_SECRET" then "s3cret" else "value"

abbrev no_secret : Config
no_secret = record (kc_config env) { client_secret = "" }

missing_secret :
    require_keycloak_config "shadow" no_secret
    ≡ some (new_error "AUTHZ_BACKEND=shadow requires KEYCLOAK_CLIENT_SECRET")
unfolding require_keycloak_config
missing_secret = refl

-- The shadow, with GitHub's keys, a cluster and credentials at hand.
abbrev shadow_env : Env
shadow_env = λ key. if key == "AUTHZ_BACKEND" then "shadow" else env key

abbrev libraries : Libraries
libraries = record {
  Provider = String;
  ClusterConfig = String;
  Clientset = String;
  AwsConfig = String;
  is_print = λ n. true;
  new_provider = λ issuer. ok issuer;
  in_cluster_config = ok "service account";
  new_for_config = λ cfg. ok cfg;
  load_default_config = ok "eu-central-1";
}

abbrev shadow_process : Process libraries
shadow_process = record {
  backend = shadow_backend policy (kc_config env);
  verifier = ("https://token.actions.githubusercontent.com", "https://gateway.tuando.app");
  cluster = "service account";
  store = ("eu-central-1", "value");
  notifier = some (record { base_url = "value"; token = "value" });
  config = record { default_deadline = 600 * second; notify_enabled = true };
  addr = ":value";
}

start_process-Ready_example : Ready libraries files shadow_env shadow_process
unfolding start_process deploy_gateway.Authz.Policy.load_policy
start_process-Ready_example = start_process-Ready libraries files shadow_env shadow_process refl

require_keycloak_config_secret_example :
    require_keycloak_config "keycloak" no_secret
    ≡ require_keycloak_config "keycloak" (record no_secret { realm = "other" })
require_keycloak_config_secret_example =
    require_keycloak_config_secret "keycloak" no_secret (record no_secret { realm = "other" }) refl
      refl refl refl
