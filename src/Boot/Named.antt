-- ===== src/Boot/Named.antt =====
-- cmd/gateway/main.go, buildAuthorizer: the backend that a name stands for.
use mathlib.Core.Path.{subst}
use deploy_gateway.Base.{
  String, ◌||◌, ◌==◌, ◌≡◌, ◌≢◌, refl, ℕ, Bool, true, false, Bool-cases, inl, inr, ◌⊎◌, eq_iff,
  arith, Option, none, some, GoError, Result, ok, err, if◌then◌else◌,
}
use deploy_gateway.Authz.Policy.{Policy, PolicySource, load_policy}
use deploy_gateway.Keycloak.Http.{Config}
use deploy_gateway.Boot.{
  Env, env_or, require_keycloak_config, kc_config, Backend, file_backend, keycloak_backend,
  shadow_backend, with_config, with_policy, build_authorizer,
}
use deploy_gateway.Boot.Laws.{Complete, require_keycloak_config-Complete}

with_policy-loaded :
    (r : Result Policy) (next : Policy → Result Backend) (built : Backend)
    → with_policy r next ≡ ok built
    → (p : Policy) × (r ≡ ok p) × (next p ≡ ok built)
unfolding with_policy
with_policy-loaded (err e) next built h = cc
with_policy-loaded (ok p) next built h = (p, refl, h)

-- The path of the policy: what the environment says, or the default.
pub data PolicyPath (env : Env) (path : String) : Type 0 where
  from_environment : env "POLICY_PATH" ≢ "" → path ≡ env "POLICY_PATH" → PolicyPath env path
  by_default : env "POLICY_PATH" ≡ "" → path ≡ "/etc/gateway/policy.yaml" → PolicyPath env path

-- The configuration has the environment's values, none of which is empty.
pub record Configured (env : Env) (cfg : Config) : Type 0 where
  pub base_url : cfg.base_url ≡ env "KEYCLOAK_BASE_URL"
  pub realm : cfg.realm ≡ env "KEYCLOAK_REALM"
  pub client_id : cfg.client_id ≡ env "KEYCLOAK_CLIENT_ID"
  pub client_secret : cfg.client_secret ≡ env "KEYCLOAK_CLIENT_SECRET"
  pub complete : Complete cfg

-- The backend that a name in AUTHZ_BACKEND stands for; no other name stands for one.
pub data Named (files : PolicySource) (env : Env) (path : String) (name : String)
    : Backend → Type 0 where
  names_keycloak :
      {cfg : Config}
      → name ≡ "keycloak"
      → Configured env cfg
      → Named files env path name (keycloak_backend cfg)
  names_shadow :
      {p : Policy} {cfg : Config}
      → name ≡ "shadow"
      → load_policy files path ≡ ok p
      → Configured env cfg
      → Named files env path name (shadow_backend p cfg)
  names_file :
      {p : Policy}
      → (name ≡ "file") ⊎ (name ≡ "")
      → load_policy files path ≡ ok p
      → Named files env path name (file_backend p)

kc_config-Configured :
    (env : Env) (name : String)
    → require_keycloak_config name (kc_config env) ≡ none
    → Configured env (kc_config env)
kc_config-Configured env name h = record {
  base_url = refl;
  realm = refl;
  client_id = refl;
  client_secret = refl;
  complete = require_keycloak_config-Complete name (kc_config env) h;
}

with_config-ok :
    (o : Option GoError) (made built : Backend)
    → with_config o made ≡ ok built
    → (o ≡ none) × (made ≡ built)
unfolding with_config
with_config-ok (some e) made built h = cc
with_config-ok none made built h = (refl, cc)

module _ (is_print : ℕ → Bool) (files : PolicySource) (env : Env) (path name : String)
    (built : Backend) where
  build_authorizer-split :
      (k s f : Bool)
      → (name == "keycloak") ≡ k
      → (name == "shadow") ≡ s
      → (name == "file" || name == "") ≡ f
      → build_authorizer is_print files env name path ≡ ok built
      → Named files env path name built
  unfolding build_authorizer
  build_authorizer-split true s f hk hs hf h =
      let (o, same) = with_config-ok _ _ built (rw hk at h) in
      subst (Named files env path name) same
        (names_keycloak ((eq_iff name "keycloak").0 hk) (kc_config-Configured env name o))
  build_authorizer-split false true f hk hs hf h =
      let (p, loaded, next) = with_policy-loaded _ _ built (rw (hk, hs) at h) in
      let (o, same) = with_config-ok _ _ built next in
      subst (Named files env path name) same
        (names_shadow ((eq_iff name "shadow").0 hs) loaded (kc_config-Configured env name o))
  build_authorizer-split false false true hk hs hf h =
      let (p, loaded, next) = with_policy-loaded _ _ built (rw (hk, hs, hf) at h) in
      let same : file_backend p ≡ built = cc in
      subst (Named files env path name) same (names_file (either_name hf) loaded)
    where
      either_name : (name == "file" || name == "") ≡ true → (name ≡ "file") ⊎ (name ≡ "")
      either_name e = elim (Bool-cases (name == "file")) [
        | inl x ↦ inl ((eq_iff name "file").0 x)
        | inr x ↦ inr ((eq_iff name "").0 (ground arith))
      ]
  build_authorizer-split false false false hk hs hf h = let g = rw (hk, hs, hf) at h in cc

  -- What the name stands for is what is built.
  pub build_authorizer-Named :
      build_authorizer is_print files env name path ≡ ok built → Named files env path name built
  build_authorizer-Named h = build_authorizer-split _ _ _ refl refl refl h

pub env_or-PolicyPath :
    (env : Env) → PolicyPath env (env_or env "POLICY_PATH" "/etc/gateway/policy.yaml")
env_or-PolicyPath env = by_value (env "POLICY_PATH" == "") refl
  where
    by_value :
        (b : Bool)
        → (env "POLICY_PATH" == "") ≡ b
        → PolicyPath env (if b then "/etc/gateway/policy.yaml" else env "POLICY_PATH")
    by_value true e = by_default ((eq_iff (env "POLICY_PATH") "").0 e) refl
    by_value false e =
        from_environment (λ x. let y = (eq_iff (env "POLICY_PATH") "").1 x in cc) refl
