-- ===== src/Boot/Laws.antt =====
-- A Keycloak backend has a complete configuration, and an error shows no value of it.
use mathlib.Core.Path.{subst}
use deploy_gateway.Base.{
  String, ◌<>◌, ◌||◌, new_error, ◌==◌, ◌≡◌, refl, ℕ, Bool, true, false, Option, none, some, [], ◌∷◌,
  ◌++◌, GoError, Result, ok, err, if◌then◌else◌,
}
use deploy_gateway.Base.Text.{quote}
use deploy_gateway.Authz.Policy.{Policy, PolicySource, load_policy}
use deploy_gateway.Keycloak.Http.{Config}
use deploy_gateway.Boot.{
  Env, missing_error, require_keycloak_config, kc_config, Backend, file_backend, keycloak_backend,
  shadow_backend, with_config, with_policy, build_authorizer,
}

-- Every field of the configuration has a value.
pub record Complete (cfg : Config) : Type 0 where
  pub base_url : (cfg.base_url == "") ≡ false
  pub realm : (cfg.realm == "") ≡ false
  pub client_id : (cfg.client_id == "") ≡ false
  pub client_secret : (cfg.client_secret == "") ≡ false

missing_none :
    (backend : String) (cfg : Config) (u r i s : Bool)
    → (cfg.base_url == "") ≡ u
    → (cfg.realm == "") ≡ r
    → (cfg.client_id == "") ≡ i
    → (cfg.client_secret == "") ≡ s
    → missing_error backend (
        (if u then "KEYCLOAK_BASE_URL" ∷ [] else [])
        ++ ((if r then "KEYCLOAK_REALM" ∷ [] else [])
            ++ ((if i then "KEYCLOAK_CLIENT_ID" ∷ [] else [])
                ++ (if s then "KEYCLOAK_CLIENT_SECRET" ∷ [] else []))))
      ≡ none
    → Complete cfg
unfolding missing_error
missing_none backend cfg true r i s hu hr hi hs h = cc
missing_none backend cfg false true i s hu hr hi hs h = cc
missing_none backend cfg false false true s hu hr hi hs h = cc
missing_none backend cfg false false false true hu hr hi hs h = cc
missing_none backend cfg false false false false hu hr hi hs h = record {
  base_url = hu;
  realm = hr;
  client_id = hi;
  client_secret = hs;
}

-- The check at the start passes only a configuration in which every value is there.
pub require_keycloak_config-Complete :
    (backend : String) (cfg : Config) → require_keycloak_config backend cfg ≡ none → Complete cfg
unfolding require_keycloak_config
require_keycloak_config-Complete backend cfg h =
    missing_none backend cfg _ _ _ _ refl refl refl refl h

with_config-Complete :
    (backend : String) (cfg : Config) (r : Option GoError) (made built : Backend)
    → require_keycloak_config backend cfg ≡ r
    → with_config r made ≡ ok built
    → Complete cfg × (made ≡ built)
unfolding with_config
with_config-Complete backend cfg (some e) made built h k = cc
with_config-Complete backend cfg none made built h k =
    (require_keycloak_config-Complete backend cfg h, cc)

with_policy-ok :
    (r : Result Policy) (next : Policy → Result Backend) (built : Backend)
    → with_policy r next ≡ ok built
    → (p : Policy) × (next p ≡ ok built)
unfolding with_policy
with_policy-ok (err e) next built h = cc
with_policy-ok (ok p) next built h = (p, h)

-- The configuration that a backend hands to Keycloak, if it goes there at all.
abbrev pub config_of : Backend → Option Config
config_of (file_backend p) = none
config_of (keycloak_backend cfg) = some cfg
config_of (shadow_backend p cfg) = some cfg

module _ (is_print : ℕ → Bool) (files : PolicySource) (env : Env) (policy_path : String)
    (built : Backend) (cfg : Config) where
  built_from :
      (backend : String) (made : Backend)
      → config_of made ≡ some (kc_config env)
      → with_config (require_keycloak_config backend (kc_config env)) made ≡ ok built
      → config_of built ≡ some cfg
      → Complete cfg
  built_from backend made c h k =
      let (complete, same) = with_config-Complete backend (kc_config env) _ made built refl h in
      let config_is : kc_config env ≡ cfg = cc in subst Complete config_is complete

  file_only :
      (p : Policy) × (ok (file_backend p) ≡ ok built) → config_of built ≡ some cfg → Complete cfg
  file_only (p, f) k = cc

  shadow_from :
      (backend : String)
      → (p : Policy) × (with_config
            (require_keycloak_config backend (kc_config env))
            (shadow_backend p (kc_config env))
          ≡ ok built)
      → config_of built ≡ some cfg
      → Complete cfg
  shadow_from backend (p, f) k = built_from backend (shadow_backend p (kc_config env)) refl f k

  -- Whatever backend is chosen, an authorizer that goes to Keycloak, alone or as the shadow, is built
  -- only from an environment in which every value of its configuration is there.
  pub build_authorizer-Complete :
      (backend : String)
      → build_authorizer is_print files env backend policy_path ≡ ok built
      → config_of built ≡ some cfg
      → Complete cfg
  unfolding build_authorizer
  build_authorizer-Complete backend h k =
      by_name (backend == "keycloak") (backend == "shadow") (backend == "file" || backend == "") h
    where
      by_name :
          (kc sh fi : Bool)
          → (if kc
              then with_config
                  (require_keycloak_config backend (kc_config env))
                  (keycloak_backend (kc_config env))
              else if sh
              then with_policy (load_policy files policy_path) (λ p.
                with_config
                  (require_keycloak_config backend (kc_config env))
                  (shadow_backend p (kc_config env)))
              else if fi
              then with_policy (load_policy files policy_path) (λ p. ok (file_backend p))
              else err (
                  new_error (
                    "unknown AUTHZ_BACKEND "
                    <> (quote is_print backend <> " (want file, keycloak or shadow)"))))
            ≡ ok built
          → Complete cfg
      by_name true sh fi e = built_from backend (keycloak_backend (kc_config env)) refl e k
      by_name false true fi e =
          shadow_from backend
            (with_policy-ok (load_policy files policy_path)
              (λ p.
                with_config (require_keycloak_config backend (kc_config env))
                  (shadow_backend p (kc_config env)))
              built e)
            k
      by_name false false true e =
          file_only
            (with_policy-ok (load_policy files policy_path) (λ p. ok (file_backend p)) built e) k
      by_name false false false e = cc

-- Two configurations that lack the same values are refused with the same text: no value, and so no
-- secret, shows in it.
pub require_keycloak_config_secret :
    (backend : String) (a b : Config)
    → (a.base_url == "") ≡ (b.base_url == "")
    → (a.realm == "") ≡ (b.realm == "")
    → (a.client_id == "") ≡ (b.client_id == "")
    → (a.client_secret == "") ≡ (b.client_secret == "")
    → require_keycloak_config backend a ≡ require_keycloak_config backend b
unfolding require_keycloak_config
require_keycloak_config_secret backend a b u r i s = rw (u, r, i, s) refl
