-- ===== src/Keycloak/Client.antt =====
-- internal/keycloak/client.go: the calls of the Admin API. The log is left out; so is the timeout of a
-- call, which the server's answers include. A `nil` list of refs is the empty list.
pub mod Laws
use deploy_gateway.Base.{
  ℕ, zero, suc, ◌*◌, String, ◌<>◌, ◌==◌, Bool, true, false, not, ◌&&◌, Option, none, some, List, [],
  ◌∷◌, length, GoError, Result, ok, err, wrap, new_error, no_subject, leb, eqb, if◌then◌else◌,
}
use deploy_gateway.Base.Text.{show, quote, equal_fold}
use deploy_gateway.Base.Dict
use deploy_gateway.Base.StateMonad.{State, pure, gets, modify, ◌>>=◌, ◌>>◌}
use deploy_gateway.Store.{second}
use deploy_gateway.Keycloak.Cache
use deploy_gateway.Keycloak.Cache.{Cache, new_cache}
use deploy_gateway.Keycloak.Http.{
  Config, ClientEntry, UserEntry, ResourceRepresentation, EvalRequest, Payload, no_body, evaluation,
  Method, get_method, post_method, Server,
}
use deploy_gateway.Keycloak.Token.{TokenSource, admin_url, token, invalidate}

abbrev pub user_id_ttl : ℕ
user_id_ttl = 600 * second

abbrev pub decision_ttl : ℕ
decision_ttl = 30 * second

abbrev pub refs_ttl : ℕ
refs_ttl = decision_ttl

pub record Client (H : Server) : Type 0 where
  pub source : TokenSource
  pub uuid : String
  pub user_ids : Cache String
  pub refs : Cache (List String)
  pub server : H.State

-- `NewClient`
unfoldable pub new_client : (H : Server) → H.State → Client H
new_client H h = record {
  source = record { token = ""; expires_at = zero };
  uuid = "";
  user_ids = new_cache user_id_ttl 0;
  refs = new_cache refs_ttl 0;
  server = h;
}

-- What one pass of the loop of `do` does: `return`, or `continue` with a `lastErr`.
pub data Attempt (B : Type 0) : Type 0 where
  done : Result B → Attempt B
  again : GoError → Attempt B

abbrev pub method_text : Method → String
method_text get_method = "GET"
method_text post_method = "POST"

-- The elements of the lists that are asked for.
unfoldable pub find_client : String → List ClientEntry → Option String
find_client client_id [] = none
find_client client_id (cl ∷ cls) =
    let rest = find_client client_id cls in
    if cl.client_id == client_id && not (cl.id == "") then some cl.id else rest

unfoldable pub find_user : String → List UserEntry → Option String
find_user username [] = none
find_user username (u ∷ us) =
    let rest = find_user username us in
    if not (u.id == "") && equal_fold u.username username then some u.id else rest

unfoldable pub find_resource : String → List ResourceRepresentation → Option ResourceRepresentation
find_resource name [] = none
find_resource name (r ∷ rs) =
    let rest = find_resource name rs in if r.name == name then some r else rest

-- The constraint for the action, else the bare one.
pub refs_or_bare : Dict.Dict (List String) → Option (List String) → List String
refs_or_bare attrs (some v) = v
refs_or_bare attrs none = elim (Dict.lookup "allowed_refs" attrs) [ some v ↦ v | none ↦ [] ]

unfoldable pub refs_of : String → Option ResourceRepresentation → List String
unfolding refs_or_bare
refs_of action none = []
refs_of action (some r) =
    refs_or_bare r.attributes (Dict.lookup ("allowed_refs." <> action) r.attributes)

-- The `switch` on the status
unfoldable pub verdict_of : (ℕ → Bool) → String → Result Bool
verdict_of is_print status =
    if status == "PERMIT"
    then ok true
    else if status == "DENY"
    then ok false
    else err (new_error ("keycloak: unexpected evaluate status " <> quote is_print status))

module _ (H : Server) (cfg : Config) where
  abbrev pub K : Type 0 → Type 0
  K A = State (Client H) A

  -- `c.ts.Token`
  unfoldable pub bearer : K (Result String)
  bearer c =
      let (tok, source, h) = token H cfg c.source c.server in
      (tok, record c { source = source; server = h })

  unfoldable pub transmit : Method → String → String → Payload → K (Result (ℕ × Result H.Body))
  transmit method url tok body c =
      let (resp, h) = H.send method url tok body c.server in (resp, record c { server = h })

  read_body : Result H.Body → Result H.Body
  read_body (err e) = err (wrap "keycloak: read response" e)
  read_body (ok out) = ok out

  -- The `switch` on the status of an answer. A 401 drops the token.
  unfoldable pub after_answer : Method → Result (ℕ × Result H.Body) → K (Attempt H.Body)
  unfolding read_body
  after_answer method (err e) =
      pure (again (wrap ("keycloak: " <> method_text method <> " request failed") e))
  after_answer method (ok (status, out)) =
      if eqb status 401
      then (do
        modify λ c. record c { source = invalidate c.source }
        pure (again (new_error "keycloak: unauthorized")))
      else if leb 500 status
      then pure (again (new_error ("keycloak: returned " <> show status)))
      else if leb 400 status
      then pure (done (err (new_error ("keycloak: returned " <> show status))))
      else pure (done (read_body out))

  with_request : Method → String → Payload → String → Option GoError → K (Attempt H.Body)
  unfolding after_answer
  with_request method url body tok (some e) = pure (done (err (wrap "keycloak: build request" e)))
  with_request method url body tok none = do
    resp ← transmit method url tok body
    after_answer method resp

  with_token : Method → String → Payload → Result String → K (Attempt H.Body)
  unfolding with_request
  with_token method url body (err e) = pure (again e)
  with_token method url body (ok tok) = with_request method url body tok (H.build_error url)

  attempt : Method → String → Payload → K (Attempt H.Body)
  unfolding with_token
  attempt method url body = do tok ← bearer; with_token method url body tok

  unfoldable pub after_attempt : {A : Type 0} → Attempt A → (GoError → K (Result A)) → K (Result A)
  after_attempt (done r) rest = pure r
  after_attempt (again e) rest = rest e

  -- So many passes of the loop, with the `lastErr` so far.
  attempts : ℕ → Method → String → Payload → GoError → K (Result H.Body)
  unfolding attempt after_attempt
  attempts zero method url body last_err = pure (err last_err)
  attempts (suc n) method url body last_err = do
    a ← attempt method url body
    after_attempt a (attempts n method url body)

  -- `do`. The first pass replaces the `lastErr` that it starts with.
  unfoldable pub admin_call : Method → String → Payload → K (Result H.Body)
  unfolding attempts
  admin_call method url body = attempts 2 method url body (new_error "")

  unfoldable pub admin : String → String
  unfolding admin_url
  admin path = admin_url H.path_escape cfg path

  clients_of : Result H.Body → Result (List ClientEntry)
  clients_of (err e) = err e
  clients_of (ok raw) = elim (H.decode_clients raw) [
    | ok cls ↦ ok cls
    | err e ↦ err (wrap "keycloak: decode clients" e)
  ]

  scan_clients : Result (List ClientEntry) → K (Result String)
  scan_clients (err e) = pure (err e)
  scan_clients (ok cls) = elim (find_client cfg.client_id cls) [
    | none ↦ pure (
        err (
          new_error (
            "keycloak: client "
            <> quote H.is_print cfg.client_id
            <> " not found in "
            <> show (length cls)
            <> " results")))
    | some id ↦ (do modify (λ c. record c { uuid = id }); pure (ok id))
  ]

  fetch_uuid : K (Result String)
  unfolding admin clients_of scan_clients
  fetch_uuid = do
    raw ←
        admin_call get_method (admin ("/clients?clientId=" <> H.query_escape cfg.client_id)) no_body
    scan_clients (clients_of raw)

  -- `ResourceServerUUID`
  unfoldable pub resource_server_uuid : K (Result String)
  unfolding fetch_uuid
  resource_server_uuid = do
    known ← gets (λ c. c.uuid)
    if not (known == "") then pure (ok known) else fetch_uuid
