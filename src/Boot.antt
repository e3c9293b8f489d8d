-- ===== src/Boot.antt =====
-- cmd/gateway/main.go: the choice of the authorization backend. The environment is a function; the
-- secret it holds must not show in an error.
pub mod Laws
pub mod Named
pub mod Main
use deploy_gateway.Base.{
  ℕ, Bool, String, ◌<>◌, ◌==◌, ◌||◌, Option, none, some, List, [], ◌∷◌, ◌++◌, GoError, Result, ok,
  err, new_error, if◌then◌else◌,
}
use deploy_gateway.Base.Text.{quote}
use deploy_gateway.Authz.Policy.{Policy, PolicySource, load_policy}
use deploy_gateway.Keycloak.Http.{Config}

abbrev pub Env : Type 0
Env = String → String

-- `envOr`
abbrev pub env_or : Env → String → String → String
env_or env key default = if env key == "" then default else env key

-- A name of the table whose value is empty.
abbrev pub missing_name : String → String → List String
missing_name name value = if value == "" then name ∷ [] else []

unfoldable pub missing_names : Config → List String
missing_names cfg =
    missing_name "KEYCLOAK_BASE_URL" cfg.base_url
    ++ (missing_name "KEYCLOAK_REALM" cfg.realm
        ++ (missing_name "KEYCLOAK_CLIENT_ID" cfg.client_id
            ++ missing_name "KEYCLOAK_CLIENT_SECRET" cfg.client_secret))

-- `strings.Join(missing, ", ")`
unfoldable pub join_commas : List String → String
join_commas [] = ""
join_commas (n ∷ []) = n
join_commas (n ∷ m ∷ ns) = n <> (", " <> join_commas (m ∷ ns))

missing_error : String → List String → Option GoError
unfolding join_commas
missing_error backend [] = none
missing_error backend (n ∷ ns) =
    some (new_error ("AUTHZ_BACKEND=" <> (backend <> (" requires " <> join_commas (n ∷ ns)))))

-- `requireKeycloakConfig`
unfoldable pub require_keycloak_config : String → Config → Option GoError
unfolding missing_names missing_error
require_keycloak_config backend cfg = missing_error backend (missing_names cfg)

-- `kcConfig`
abbrev pub kc_config : Env → Config
kc_config env = record {
  base_url = env "KEYCLOAK_BASE_URL";
  realm = env "KEYCLOAK_REALM";
  client_id = env "KEYCLOAK_CLIENT_ID";
  client_secret = env "KEYCLOAK_CLIENT_SECRET";
}

-- The authorizer that is built, with what it is built from.
pub data Backend : Type 0 where
  file_backend : Policy → Backend
  keycloak_backend : Config → Backend
  shadow_backend : Policy → Config → Backend

with_config : Option GoError → Backend → Result Backend
with_config (some e) backend = err e
with_config none backend = ok backend

with_policy : Result Policy → (Policy → Result Backend) → Result Backend
with_policy (err e) next = err e
with_policy (ok p) next = next p

-- `buildAuthorizer`; `is_print` is the table of `strconv.IsPrint`, for `%q`.
unfoldable pub build_authorizer : (ℕ → Bool) → PolicySource → Env → String → String → Result Backend
unfolding require_keycloak_config with_config with_policy
build_authorizer is_print files env backend policy_path =
    let cfg = kc_config env in
    if backend == "keycloak"
    then with_config (require_keycloak_config backend cfg) (keycloak_backend cfg)
    else if backend == "shadow"
    then with_policy (load_policy files policy_path)
        (λ p. with_config (require_keycloak_config backend cfg) (shadow_backend p cfg))
    else if backend == "file" || backend == ""
    then with_policy (load_policy files policy_path) (λ p. ok (file_backend p))
    else err (
        new_error (
          "unknown AUTHZ_BACKEND "
          <> (quote is_print backend <> " (want file, keycloak or shadow)")))
