-- ===== src/Keycloak/Authorizer.antt =====
-- internal/keycloak/authorizer.go: the authorizer, with its cache of permits. The log is left out.
pub mod Grants
pub mod History
pub mod Laws
use deploy_gateway.Base.{
  ℕ, ◌*◌, String, ◌<>◌, ◌==◌, Bool, true, false, Option, none, some, List, GoError, Result, ok, err,
  is_no_subject, if◌then◌else◌,
}
use deploy_gateway.Base.StateMonad.{State, pure, gets, modify, ◌>>=◌, ◌>>◌}
use deploy_gateway.Store.{second}
use deploy_gateway.Authz
use deploy_gateway.Authz.{Request, Decision}
use deploy_gateway.Authz.Ref.{match_ref}
use deploy_gateway.Keycloak.Cache
use deploy_gateway.Keycloak.Cache.{Cache, new_cache}
use deploy_gateway.Keycloak.Http.{Config, Server}
use deploy_gateway.Keycloak.Client.{Client, K, new_client, decision_ttl, resource_server_uuid}
use deploy_gateway.Keycloak.Questions
use deploy_gateway.Keycloak.Questions.{user_id, allowed_refs}

abbrev pub decision_stale_for : ℕ
decision_stale_for = 300 * second

-- `decisionKey`
abbrev pub decision_key : Request → String
decision_key req =
    req.repository
    <> ("\0"
        <> (req.action
            <> ("\0" <> (req.namespace <> ("\0" <> (req.deployment <> ("\0" <> req.ref)))))))

abbrev pub resource_name : Request → String
resource_name req = req.namespace <> ("/" <> req.deployment)

abbrev pub permitted : Decision
permitted = record { allowed = true; reason = "" }

unfoldable pub grant_denied : Request → Decision
grant_denied req = record {
  allowed = false;
  reason = "keycloak does not grant " <> (req.action <> (" on " <> resource_name req));
}

unfoldable pub ref_denied : Request → Decision
ref_denied req = record {
  allowed = false;
  reason =
      "ref "
      <> (req.ref <> (" is not permitted to " <> (req.action <> (" on " <> resource_name req))));
}

-- A malformed constraint denies.
unfoldable pub ref_decision : Request → Result Bool → Decision
unfolding ref_denied
ref_decision req (err e) = ref_denied req
ref_decision req (ok matched) = if matched then permitted else ref_denied req

module _ (H : Server) (cfg : Config) where
  with_refs : Request → Result (List String) → Result Decision
  unfolding ref_decision
  with_refs req (err e) = err e
  with_refs req (ok refs) = ok (ref_decision req (match_ref refs req.ref))

  with_grant : Request → Result Bool → K H cfg (Result Decision)
  unfolding with_refs grant_denied
  with_grant req (err e) = pure (err e)
  with_grant req (ok false) = pure (ok (grant_denied req))
  with_grant req (ok true) = do
    refs ← allowed_refs H cfg (resource_name req) req.action
    pure (with_refs req refs)

  with_user : Request → Result String → K H cfg (Result Decision)
  unfolding with_grant grant_denied
  with_user req (err e) = pure (if is_no_subject e then ok (grant_denied req) else err e)
  with_user req (ok user) = do
    granted ← Questions.evaluate H cfg user (resource_name req) req.action
    with_grant req granted

  -- `evaluate`
  unfoldable pub evaluate : Request → K H cfg (Result Decision)
  unfolding with_user
  evaluate req = do user ← user_id H cfg req.repository; with_user req user

  pub record Gate : Type 0 where
    pub client : Client H
    pub decisions : Cache Bool

  -- `NewAuthorizer`
  unfoldable pub new_gate : H.State → Gate
  new_gate h = record {
    client = new_client H h;
    decisions = new_cache decision_ttl decision_stale_for;
  }

  abbrev pub hit : Option Bool → Bool
  hit (some allowed) = allowed
  hit none = false

  unfoldable pub on_client : {A : Type 0} → K H cfg A → State Gate A
  on_client m g = let (a, c) = m g.client in (a, record g { client = c })

  unfoldable pub keep_permit : String → Gate → Gate
  keep_permit key g = record g {
    decisions = Cache.put g.decisions key true (H.clock g.client.server);
  }

  -- After the evaluation: an error rides on a permit in its period of grace, a permit is kept.
  unfoldable pub after_evaluation : String → Result Decision → State Gate (Result Decision)
  unfolding keep_permit
  after_evaluation key (err e) = do
    stale ← gets (λ g. Cache.get_stale g.decisions key (H.clock g.client.server))
    pure (if hit stale then ok permitted else err e)
  after_evaluation key (ok dec) =
      if dec.allowed then (do modify (keep_permit key); pure (ok dec)) else pure (ok dec)

  unfoldable pub without_fresh : Request → Bool → State Gate (Result Decision)
  unfolding after_evaluation on_client
  without_fresh req true = pure (ok permitted)
  without_fresh req false = do
    result ← on_client (evaluate req)
    after_evaluation (decision_key req) result

  -- `Authorize`
  unfoldable pub authorize : Request → State Gate (Result Decision)
  unfolding without_fresh
  authorize req = do
    fresh ← gets (λ g. Cache.get g.decisions (decision_key req) (H.clock g.client.server))
    without_fresh req (hit fresh)

  -- `Ready`
  unfoldable pub ready : State Gate (Option GoError)
  unfolding on_client
  ready = do
    uuid ← on_client (resource_server_uuid H cfg)
    pure (elim uuid [ ok _ ↦ none | err e ↦ some e ])

  abbrev pub keycloak_authorizer : Authz.Authorizer
  keycloak_authorizer = record { State = Gate; authorize = authorize }
