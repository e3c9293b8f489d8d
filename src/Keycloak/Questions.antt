-- ===== src/Keycloak/Questions.antt =====
-- internal/keycloak/client.go: the three questions that the authorizer asks, `UserID`, `Evaluate` and
-- `AllowedRefs`.
pub mod Laws
use deploy_gateway.Base.{
  ℕ, String, ◌<>◌, Bool, Option, none, some, List, Result, ok, err, wrap, no_subject,
}
use deploy_gateway.Base.StateMonad.{pure, gets, modify, ◌>>=◌, ◌>>◌}
use deploy_gateway.Keycloak.Cache
use deploy_gateway.Keycloak.Http.{
  Config, UserEntry, ResourceRepresentation, no_body, evaluation, get_method, post_method, Server,
}
use deploy_gateway.Keycloak.Client.{
  Client, K, find_user, find_resource, refs_of, verdict_of, admin, admin_call, resource_server_uuid,
}

module _ (H : Server) (cfg : Config) where
  users_of : Result H.Body → Result (List UserEntry)
  users_of (err e) = err e
  users_of (ok raw) = elim (H.decode_users raw) [
    | ok us ↦ ok us
    | err e ↦ err (wrap "keycloak: decode users" e)
  ]

  -- `c.userIDs.Put`, `c.refs.Put`
  unfoldable pub keep_user_id : String → String → Client H → Client H
  keep_user_id username id c = record c {
    user_ids = Cache.put c.user_ids username id (H.clock c.server);
  }

  unfoldable pub keep_refs : String → List String → Client H → Client H
  keep_refs key out c = record c { refs = Cache.put c.refs key out (H.clock c.server) }

  found_user : String → Option String → K H cfg (Result String)
  unfolding keep_user_id
  found_user username none = pure (
      err (record {
        kind = no_subject;
        message = "keycloak: repository has no subject: " <> username;
      }))
  found_user username (some id) = do modify (keep_user_id username id); pure (ok id)

  scan_users : String → Result (List UserEntry) → K H cfg (Result String)
  unfolding found_user
  scan_users username (err e) = pure (err e)
  scan_users username (ok us) = found_user username (find_user username us)

  cached_user_id : String → Option String → K H cfg (Result String)
  unfolding users_of scan_users admin
  cached_user_id username (some id) = pure (ok id)
  cached_user_id username none = do
    raw ←
        admin_call H cfg get_method
          (admin H cfg ("/users?exact=true&username=" <> H.query_escape username)) no_body
    scan_users username (users_of raw)

  -- `UserID`
  unfoldable pub user_id : String → K H cfg (Result String)
  unfolding cached_user_id
  user_id username = do
    cached ← gets (λ c. Cache.get c.user_ids username (H.clock c.server))
    cached_user_id username cached

  status_of : Result H.Body → Result Bool
  unfolding verdict_of
  status_of (err e) = err e
  status_of (ok raw) = elim (H.decode_status raw) [
    | ok status ↦ verdict_of H.is_print status
    | err e ↦ err (wrap "keycloak: decode evaluate response" e)
  ]

  ask_verdict : String → String → String → Result String → K H cfg (Result Bool)
  unfolding status_of admin
  ask_verdict user_id resource scope (err e) = pure (err e)
  ask_verdict user_id resource scope (ok uuid) = do
    raw ←
        admin_call H cfg post_method
          (admin H cfg
            ("/clients/" <> (H.path_escape uuid <> "/authz/resource-server/policy/evaluate")))
          (evaluation (record { resource = resource; scope = scope; user_id = user_id }))
    pure (status_of raw)

  -- `Evaluate`. `json.Marshal` cannot fail on this body.
  unfoldable pub evaluate : String → String → String → K H cfg (Result Bool)
  unfolding ask_verdict
  evaluate user_id resource scope = do
    uuid ← resource_server_uuid H cfg
    ask_verdict user_id resource scope uuid

  resources_of : Result H.Body → Result (List ResourceRepresentation)
  resources_of (err e) = err e
  resources_of (ok raw) = elim (H.decode_resources raw) [
    | ok rs ↦ ok rs
    | err e ↦ err (wrap "keycloak: decode resources" e)
  ]

  scan_resources :
      String → String → Result (List ResourceRepresentation) → K H cfg (Result (List String))
  unfolding refs_of keep_refs
  scan_resources resource action (err e) = pure (err e)
  scan_resources resource action (ok rs) = do
    let out = refs_of action (find_resource resource rs)
    modify (keep_refs (resource <> ("\0" <> action)) out)
    pure (ok out)

  ask_refs : String → String → Result String → K H cfg (Result (List String))
  unfolding resources_of scan_resources admin
  ask_refs resource action (err e) = pure (err e)
  ask_refs resource action (ok uuid) = do
    raw ←
        admin_call H cfg get_method
          (admin H cfg (
            "/clients/"
            <> (H.path_escape uuid
                <> ("/authz/resource-server/resource?exactName=true&name="
                    <> H.query_escape resource))))
          no_body
    scan_resources resource action (resources_of raw)

  cached_refs : String → String → Option (List String) → K H cfg (Result (List String))
  unfolding ask_refs
  cached_refs resource action (some out) = pure (ok out)
  cached_refs resource action none = do
    uuid ← resource_server_uuid H cfg
    ask_refs resource action uuid

  -- `AllowedRefs`
  unfoldable pub allowed_refs : String → String → K H cfg (Result (List String))
  unfolding cached_refs
  allowed_refs resource action = do
    cached ← gets (λ c. Cache.get c.refs (resource <> ("\0" <> action)) (H.clock c.server))
    cached_refs resource action cached
