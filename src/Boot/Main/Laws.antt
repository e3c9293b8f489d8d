-- ===== src/Boot/Main/Laws.antt =====
-- What a process that comes to listen is built from.
use mathlib.Core.Path.{subst}
use deploy_gateway.Base.{
  ◌*◌, String, ◌==◌, ◌||◌, ◌≡◌, ◌≢◌, ◌↔◌, refl, sym, ap, Bool, true, false, none, some, Result, ok,
  err, eq_iff, if◌then◌else◌,
}
use deploy_gateway.Store.{second}
use deploy_gateway.Authn.{new_verifier, with_audience}
use deploy_gateway.Authz.Policy.{PolicySource}
use deploy_gateway.Store.Dynamo.{new_dynamo_store}
use deploy_gateway.Kube.Client.{new_in_cluster}
use deploy_gateway.Manager.Start.{new_manager}
use deploy_gateway.Notify.Http.{Transport}
use deploy_gateway.Notify.Notifier.{new_notifier}
use deploy_gateway.Boot.{Env, env_or}
use deploy_gateway.Boot.Named.{PolicyPath, Named, build_authorizer-Named, env_or-PolicyPath}
use deploy_gateway.Boot.Main.{
  Libraries, Process, Startup, listens, oidc_issuer, audience, notify_config, is_there, or_exit,
  built, start_process,
}

module _ (L : Libraries) (files : PolicySource) (env : Env) where
  pub record Ready (p : Process L) : Type 0 where
    pub path : String
    pub path_is : PolicyPath env path
    pub authorizer : Named files env path (env "AUTHZ_BACKEND") p.backend
    pub issued : L.new_provider oidc_issuer ≡ ok p.verifier.0
    pub for_audience : p.verifier.1 ≡ audience
    pub deadline : p.config.default_deadline ≡ 600 * second
    pub notifies :
        (p.config.notify_enabled ≡ true)
        ↔ ((env "TELEGRAM_BOT_TOKEN" ≢ "") × (env "TELEGRAM_CHAT_ID" ≢ ""))

  or_exit-listens :
      {A : Type 0} (what : String) (r : Result A) (next : A → Startup L) (p : Process L)
      → or_exit L what r next ≡ listens p
      → (a : A) × (r ≡ ok a) × (next a ≡ listens p)
  unfolding or_exit
  or_exit-listens what (err e) next p h = cc
  or_exit-listens what (ok a) next p h = (a, refl, h)

  with_audience-ok :
      (r : Result L.Provider) (a : String) (v : L.Provider × String)
      → with_audience a r ≡ ok v
      → (r ≡ ok v.0) × (v.1 ≡ a)
  with_audience-ok (err e) a v h = cc
  with_audience-ok (ok p) a v h =
      let same : (p, a) ≡ v = cc in
      (
        ap (λ (x : L.Provider × String). ok x.0) same,
        sym (ap (λ (x : L.Provider × String). x.1) same),
      )

  there_iff :
      (token chat : String) (t : Transport) (b d : Bool)
      → (token == "") ≡ b
      → (chat == "") ≡ d
      → (is_there (if b || d then none else some t) ≡ true) ↔ ((token ≢ "") × (chat ≢ ""))
  there_iff token chat t true d e f = (λ h. cc, λ (n, m). absurd (n ((eq_iff token "").0 e)))
  there_iff token chat t false true e f = (λ h. cc, λ (n, m). absurd (m ((eq_iff chat "").0 f)))
  there_iff token chat t false false e f = (
    λ h. (λ k. let e' = (eq_iff token "").1 k in cc, λ k. let e' = (eq_iff chat "").1 k in cc),
    λ _. refl,
  )

  notifies_iff :
      (is_there (new_notifier (notify_config env)) ≡ true)
      ↔ ((env "TELEGRAM_BOT_TOKEN" ≢ "") × (env "TELEGRAM_CHAT_ID" ≢ ""))
  unfolding new_notifier
  notifies_iff = there_iff (env "TELEGRAM_BOT_TOKEN") (env "TELEGRAM_CHAT_ID") _ _ _ refl refl

  -- A process that comes to listen has the authorizer that AUTHZ_BACKEND names: "keycloak" Keycloak,
  -- "shadow" the policy with Keycloak as the shadow, "file" or nothing the policy, and no other name
  -- any; the policy is the one loaded from POLICY_PATH or from the default path, and the configuration of
  -- Keycloak has the environment's values, none of them empty. Its verifier asks for this gateway's
  -- audience, of GitHub's issuer; a rollout without a deadline of its own has ten minutes; and it
  -- notifies exactly if the environment has the bot's token and the chat.
  pub start_process-Ready : (p : Process L) → start_process L files env ≡ listens p → Ready p
  unfolding start_process built new_verifier new_manager
  start_process-Ready p h =
      let (backend, b, h₁) = or_exit-listens "authorization backend" _ _ p h in
      let (verifier, v, h₂) = or_exit-listens "oidc verifier" _ _ p h₁ in
      let (cluster, k, h₃) =
        or_exit-listens "kubernetes client" (new_in_cluster L.in_cluster_config L.new_for_config) _
          p h₂ in
      let (store, st, h₄) =
        or_exit-listens "dynamo store"
          (new_dynamo_store L.load_default_config
            (env_or env "DYNAMO_TABLE" "deploy-gateway-operations"))
          (λ store. listens (built L env backend verifier cluster store)) p h₃ in
      let p_is : built L env backend verifier cluster store ≡ p = cc in
      let (issued, for_audience) = with_audience-ok _ audience verifier v in
      subst Ready p_is (record {
        path = env_or env "POLICY_PATH" "/etc/gateway/policy.yaml";
        path_is = env_or-PolicyPath env;
        authorizer = build_authorizer-Named L.is_print files env _ (env "AUTHZ_BACKEND") backend b;
        issued = issued;
        for_audience = for_audience;
        deadline = refl;
        notifies = notifies_iff;
      })
