-- ===== src/Keycloak/Http.antt =====
-- What the Keycloak client reaches: a server behind HTTP, and the clock. The server's answers are
-- abstract; a body comes with what `encoding/json` makes of it. The escapes of `net/url` and the URL
-- parser of `net/http` are functions of this record too.
use deploy_gateway.Base.{Bool, ℕ, String, List, Option, GoError, Result}
use deploy_gateway.Base.Dict.{Dict}
use deploy_gateway.Store.{Time}

pub record Config : Type 0 where
  pub base_url : String
  pub realm : String
  pub client_id : String
  pub client_secret : String

-- The body of the token endpoint's answer. `expires_in` is in seconds; a negative one acts as 0 does, and one
-- whose nanoseconds overflow 64 bits (292 years) is left out.
pub record TokenBody : Type 0 where
  pub access_token : String
  pub expires_in : ℕ

pub record TokenResponse : Type 0 where
  pub status_code : ℕ
  pub body : Result TokenBody

-- The elements of the list of clients, and of the list of users.
pub record ClientEntry : Type 0 where
  pub id : String
  pub client_id : String

pub record UserEntry : Type 0 where
  pub id : String
  pub username : String

pub record ResourceRepresentation : Type 0 where
  pub name : String
  pub attributes : Dict (List String)

-- `evalRequest`, with its one resource and one scope and no context attributes
pub record EvalRequest : Type 0 where
  pub resource : String
  pub scope : String
  pub user_id : String

pub data Payload : Type 0 where
  no_body : Payload
  evaluation : EvalRequest → Payload

pub data Method : Type 0 where
  get_method post_method : Method

pub record Server : Type 1 where
  -- the table of `strconv.IsPrint`, for `%q`
  pub is_print : ℕ → Bool
  pub State : Type 0
  pub Body : Type 0
  pub clock : State → Time
  pub path_escape : String → String
  pub query_escape : String → String
  -- `http.NewRequestWithContext` fails on a URL that does not parse.
  pub build_error : String → Option GoError
  pub post_token : Config → String → State → Result TokenResponse × State
  -- An answer is a status and a body, which may fail to be read to its end.
  pub send : Method → String → String → Payload → State → Result (ℕ × Result Body) × State
  pub decode_clients : Body → Result (List ClientEntry)
  pub decode_users : Body → Result (List UserEntry)
  pub decode_status : Body → Result String
  pub decode_resources : Body → Result (List ResourceRepresentation)
