-- ===== src/Keycloak/Authorizer/History.antt =====
-- Histories of the authorizer: requests, and changes of the world outside, with the permits that Keycloak
-- gives in them.
use deploy_gateway.Base.{
  ◌+◌, ◌≤◌, ◌≡◌, String, true, List, [], ◌∷◌, ◌++◌, Result, ok, err, if◌then◌else◌,
}
use deploy_gateway.Store.{Time}
use deploy_gateway.Authz.{Request, Decision}
use deploy_gateway.Keycloak.Cache
use deploy_gateway.Keycloak.Http.{Config, Server}
use deploy_gateway.Keycloak.Client.{decision_ttl}
use deploy_gateway.Keycloak.Authorizer.{
  decision_stale_for, decision_key, evaluate, Gate, hit, authorize,
}

-- The answer is a permit.
abbrev pub Allows : Result Decision → Type 0
Allows (ok dec) = dec.allowed ≡ true
Allows (err e) = ⊥

-- A permit that Keycloak gave: the key of the request and the time.
abbrev pub Permit : Type 0
Permit = String × Time

-- A permit for this key, given at this time.
abbrev pub Made : String → Time → Permit → Type 0
Made key at p = (p.0 ≡ key) × (p.1 ≡ at)

-- A permit for this key that is not older than the time to live and the period of grace.
abbrev pub Supports : String → Time → Permit → Type 0
Supports key now p = (p.0 ≡ key) × (now ≤ p.1 + (decision_ttl + decision_stale_for))

-- What happens to the gateway's authorizer: a request, or a change of the world outside.
pub data Event (H : Server) : Type 0 where
  asks : Request → Event H
  passes : H.State → Event H

module _ (H : Server) (cfg : Config) where
  unfoldable pub move : Gate H cfg → H.State → Gate H cfg
  move g h = record g { client = record g.client { server = h } }

  unfoldable pub happen : Gate H cfg → Event H → Gate H cfg
  unfolding move
  happen g (asks req) = (authorize H cfg req g).1
  happen g (passes h) = move g h

  unfoldable pub live : Gate H cfg → List (Event H) → Gate H cfg
  unfolding happen
  live g [] = g
  live g (e ∷ es) = live (happen g e) es

  -- The permit in an answer of Keycloak.
  unfoldable pub given : String → Result Decision → Time → List Permit
  given key (err e) t = []
  given key (ok dec) t = if dec.allowed then (key, t) ∷ [] else []

  -- The permits of a request: none if it is answered from the cache.
  unfoldable pub given_by : Request → Gate H cfg → List Permit
  unfolding given
  given_by req g =
      if hit H cfg (Cache.get g.decisions (decision_key req) (H.clock g.client.server))
      then []
      else given (decision_key req) (evaluate H cfg req g.client).0
          (H.clock (evaluate H cfg req g.client).1.server)

  unfoldable pub given_in : Event H → Gate H cfg → List Permit
  unfolding given_by
  given_in (asks req) g = given_by req g
  given_in (passes h) g = []

  -- The permits that Keycloak gave in a history.
  unfoldable pub permits : Gate H cfg → List (Event H) → List Permit
  unfolding given_in
  permits g [] = []
  permits g (e ∷ es) = given_in e g ++ permits (happen g e) es
