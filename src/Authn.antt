-- ===== src/Authn.antt =====
-- internal/authn: the identity in a GitHub Actions OIDC token, and the verifiers. Checking the token's
-- signature and decoding its claims is go-oidc's work, a parameter here.
use deploy_gateway.Base.{String, ◌==◌, Result, ok, err, wrap, new_error, if◌then◌else◌}

pub record GitHubIdentity : Type 0 where
  pub subject : String
  pub repository : String
  pub repository_id : String
  pub repository_owner : String
  pub ref : String
  pub workflow : String
  pub workflow_ref : String
  pub environment : String
  pub actor : String
  pub event_name : String
  pub run_id : String
  pub run_attempt : String

-- go-oidc: `IDTokenVerifier.Verify`, and `IDToken.Claims` on what that returns
pub record Oidc : Type 1 where
  pub IdToken : Type 0
  pub verify : String → Result IdToken
  pub claims : IdToken → Result GitHubIdentity

module _ (o : Oidc) where
  checked : Result GitHubIdentity → Result GitHubIdentity
  checked (err e) = err (wrap "extract claims" e)
  checked (ok id) =
      if id.repository == "" then err (new_error "missing repository claim") else ok id

  verified : Result o.IdToken → Result GitHubIdentity
  unfolding checked
  verified (err e) = err (wrap "verify token" e)
  verified (ok token) = checked (o.claims token)

  -- `Verifier.Verify`
  unfoldable pub verify : String → Result GitHubIdentity
  unfolding verified
  verify raw_token = verified (o.verify raw_token)

-- `staticVerifier.Verify`
unfoldable pub static_verify : GitHubIdentity → String → Result GitHubIdentity
static_verify id raw_token = ok id

abbrev pub with_audience {ℓ} : {P : Type ℓ} → String → Result P → Result (P × String)
with_audience audience (err e) = err (wrap "oidc discovery" e)
with_audience audience (ok p) = ok (p, audience)

-- `NewVerifier`, over go-oidc's discovery: the provider, with the audience that a token must name
unfoldable pub new_verifier {ℓ} :
    {P : Type ℓ} → (String → Result P) → String → String → Result (P × String)
new_verifier new_provider issuer audience = with_audience audience (new_provider issuer)
