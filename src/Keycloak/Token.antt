-- ===== src/Keycloak/Token.antt =====
-- internal/keycloak/token.go: the cached access token of the gateway.
pub mod Laws
use deploy_gateway.Base.{
  ℕ, ◌+◌, ◌-◌, ◌*◌, String, ◌<>◌, ◌==◌, Bool, not, ◌&&◌, Option, none, some, Result, ok, err,
  new_error, wrap, ltb, eqb, if◌then◌else◌,
}
use deploy_gateway.Base.Text.{show, trim_suffix}
use deploy_gateway.Store.{Time, second}
use deploy_gateway.Keycloak.Http.{Config, TokenBody, TokenResponse, Server}

abbrev pub refresh_skew : ℕ
refresh_skew = 30 * second

pub record TokenSource : Type 0 where
  pub token : String
  pub expires_at : Time

unfoldable pub token_url : (String → String) → Config → String
unfolding trim_suffix
token_url path_escape cfg =
    trim_suffix cfg.base_url "/"
    <> "/realms/"
    <> path_escape cfg.realm
    <> "/protocol/openid-connect/token"

unfoldable pub admin_url : (String → String) → Config → String → String
unfolding trim_suffix
admin_url path_escape cfg path =
    trim_suffix cfg.base_url "/" <> "/admin/realms/" <> path_escape cfg.realm <> path

-- The token is dropped this long before it expires, unless it lives no longer.
unfoldable pub lifetime_of : ℕ → ℕ
lifetime_of expires_in =
    let lifetime = expires_in * second in
    if ltb refresh_skew lifetime then lifetime - refresh_skew else lifetime

store_body : Time → TokenSource → Result TokenBody → Result String × TokenSource
unfolding lifetime_of
store_body now t (err e) = (err (wrap "keycloak: decode token response" e), t)
store_body now t (ok body) =
    if body.access_token == ""
    then (err (new_error "keycloak: token response had no access_token"), t)
    else (
      ok body.access_token,
      record { token = body.access_token; expires_at = now + lifetime_of body.expires_in },
    )

store_response : Time → TokenSource → Result TokenResponse → Result String × TokenSource
unfolding store_body show
store_response now t (err e) = (err (new_error "keycloak: token request failed"), t)
store_response now t (ok r) =
    if eqb r.status_code 200
    then store_body now t r.body
    else (err (new_error ("keycloak: token endpoint returned " <> show r.status_code)), t)

module _ (H : Server) (cfg : Config) where
  fetch_token : Option String → TokenSource → H.State → Result String × TokenSource × H.State
  unfolding token_url store_response
  fetch_token (some build_error) t h = (err (new_error "keycloak: build token request"), t, h)
  fetch_token none t h =
      let (r, h') = H.post_token cfg (token_url H.path_escape cfg) h in
      let (result, t') = store_response (H.clock h') t r in (result, t', h')

  abbrev build_failure : Option String
  build_failure = elim (H.build_error (token_url H.path_escape cfg)) [
    | none ↦ none
    | some e ↦ some e.message
  ]

  -- `Token`
  unfoldable pub token : TokenSource → H.State → Result String × TokenSource × H.State
  unfolding fetch_token
  token t h =
      if not (t.token == "") && ltb (H.clock h) t.expires_at
      then (ok t.token, t, h)
      else fetch_token build_failure t h

-- `Invalidate`
unfoldable pub invalidate : TokenSource → TokenSource
invalidate t = record t { token = "" }
