-- ===== src/Notify/Http.antt =====
-- internal/notify/telegram.go: one attempt, over HTTP. The token of the bot is part of the URL.
pub mod Laws
use deploy_gateway.Base.{
  ℕ, String, ◌<>◌, Option, none, some, GoError, Result, ok, err, new_error, wrap,
}
use deploy_gateway.Base.Text.{trim_suffix}
use deploy_gateway.Base.StateMonad.{State}
use deploy_gateway.Store.{Time}
use deploy_gateway.Notify.Transport.{ApiResponse, Payload, method_of, Api}

-- What `once` uses of net/http and encoding/json.
pub record Http : Type 1 where
  pub State : Type 0
  pub clock : State → Time
  pub elapse : ℕ → State → State
  pub marshal : Payload → Result String
  -- `NewRequestWithContext`: the error for a URL that does not parse, which shows it
  pub new_request : String → Option GoError
  -- `Do`, and the answer's body: the status and the text
  pub send : String → String → State → Result (ℕ × String) × State
  pub decode : String → Result ApiResponse

-- The fields of `transport`, but for the client.
pub record Transport : Type 0 where
  pub base_url : String
  pub token : String

-- `newTransport`
unfoldable pub new_transport : String → String → Transport
unfolding trim_suffix
new_transport base_url token = record { base_url = trim_suffix base_url "/"; token = token }

abbrev pub url_of : Transport → Payload → String
url_of t payload = t.base_url <> ("/bot" <> (t.token <> ("/" <> method_of payload)))

abbrev pub telegram_error : Payload → String → GoError
telegram_error payload what = new_error ("telegram " <> (method_of payload <> (": " <> what)))

module _ (H : Http) where
  decoded : Payload → ℕ → Result ApiResponse → Result (ApiResponse × ℕ)
  decoded payload status (err e) =
      err (wrap ("telegram " <> (method_of payload <> ": decode response")) e)
  decoded payload status (ok resp) = ok (resp, status)

  -- Neither this error nor the next wraps the one below it, which shows the URL.
  answered : Payload → Result (ℕ × String) × H.State → Result (ApiResponse × ℕ) × H.State
  unfolding decoded
  answered payload (err e, h) = (err (telegram_error payload "request failed"), h)
  answered payload (ok (status, body), h) = (decoded payload status (H.decode body), h)

  requested :
      Transport → Payload → String → Option GoError → State H.State (Result (ApiResponse × ℕ))
  unfolding answered
  requested t payload body (some e) h = (err (telegram_error payload "build request"), h)
  requested t payload body none h = answered payload (H.send (url_of t payload) body h)

  marshalled : Transport → Payload → Result String → State H.State (Result (ApiResponse × ℕ))
  unfolding requested
  marshalled t payload (err e) h =
      (err (wrap ("telegram " <> (method_of payload <> ": marshal payload")) e), h)
  marshalled t payload (ok body) h = requested t payload body (H.new_request (url_of t payload)) h

  -- `once`
  unfoldable pub once : Transport → Payload → State H.State (Result (ApiResponse × ℕ))
  unfolding marshalled
  once t payload h = marshalled t payload (H.marshal payload) h

  abbrev pub http_api : Transport → Api
  http_api t = record { State = H.State; clock = H.clock; elapse = H.elapse; once = once t }
