-- ===== src/Api.antt =====
-- internal/api/server.go: the HTTP server. Its router (chi) and the JSON bodies are data: a request
-- names its route, and carries what the decoder makes of its body.
pub mod Responses
pub mod Handlers
pub mod Guard
pub mod Status
pub mod Work
pub mod Accepted
pub mod Served
pub mod Steps
pub mod History
use deploy_gateway.Base.{ℕ, String, Option, List, GoError, Result}
use deploy_gateway.Authn.{GitHubIdentity}
use deploy_gateway.Authz.{Authorizer}
use deploy_gateway.Store.Api.{Store}
use deploy_gateway.Manager.Platform.{Platform}
use deploy_gateway.Manager.World
use deploy_gateway.Manager.World.{World}

pub record RestartBody : Type 0 where
  pub namespace : String
  pub deployment : String

pub record RolloutBody : Type 0 where
  pub namespace : String
  pub deployment : String
  pub container : String
  pub image : String

pub data Route : Type 0 where
  healthz readyz : Route
  restarts : Result RestartBody → Route
  rolls_out : Result RolloutBody → Route
  gets_operation : String → Route

-- `authorization` is the header, "" if there is none. `ulid` is what `ulid.Make` draws, if the request
-- comes to that; no request draws twice.
pub record HttpRequest : Type 0 where
  pub authorization : String
  pub route : Route
  pub ulid : String

-- The bodies of the answers. `recovered` is the empty answer of chi's `Recoverer` to a panic.
pub data Body : Type 0 where
  plain_ok recovered : Body
  error_body : String → String → Body
  failed_operation : String → Body
  started_body : String → Body
  operation_body :
      (operation_id status action namespace deployment : String) (error : Option (String × String))
      → Body

pub record Response : Type 0 where
  pub status : ℕ
  pub body : Body

-- `Deps`, less the log: `ready` is the authorizer's `ReadinessChecker`, if it is one. The time budget
-- of an authorization is in the authorizer's answers.
pub record Deps : Type 1 where
  pub verify : String → Result GitHubIdentity
  pub authz : Authorizer
  pub ready : Option (authz.State → Option GoError × authz.State)
  pub store : Store
  pub platform : Platform
  pub config : World.Config

pub record Server (d : Deps) : Type 0 where
  pub world : World d.store d.platform
  pub authz : d.authz.State
