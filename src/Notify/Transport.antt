-- ===== src/Notify/Transport.antt =====
-- internal/notify/telegram.go: the calls of the Bot API and their retries. The API behind HTTP is a
-- parameter: one attempt answers with an envelope, a status and an error as `once` does.
pub mod Laws
pub mod Clock
pub mod Alike
use deploy_gateway.Base.{
  ℕ, zero, suc, ◌*◌, ◌+◌, ◌-◌, String, ◌<>◌, Bool, true, false, not, ◌&&◌, ◌||◌, Option, none, some,
  GoError, Result, ok, err, new_error, ltb, leb, eqb, if◌then◌else◌,
}
use deploy_gateway.Base.Text.{show}
use deploy_gateway.Base.StateMonad.{State, pure, ◌>>=◌, ◌>>◌}
use deploy_gateway.Store.{Time, second}

abbrev pub call_timeout : ℕ
call_timeout = 30 * second

abbrev pub max_attempts : ℕ
max_attempts = 3

-- `apiResponse`; `retry_after` is in seconds.
pub record ApiResponse : Type 0 where
  pub ok : Bool
  pub message_id : ℕ
  pub description : String
  pub retry_after : ℕ

-- What `call` is given: the method's name and the fields of the payload that vary.
pub data Payload : Type 0 where
  send_message : String → String → Payload
  edit_message_text : String → ℕ → String → Payload

abbrev pub method_of : Payload → String
method_of (send_message chat_id text) = "sendMessage"
method_of (edit_message_text chat_id message_id text) = "editMessageText"

-- One attempt ends with an envelope and a status, or with an error (and no envelope).
pub record Api : Type 1 where
  pub State : Type 0
  pub clock : State → Time
  pub elapse : ℕ → State → State
  pub once : Payload → State → Result (ApiResponse × ℕ) × State

-- The delay before the next attempt, of which this is the number.
abbrev pub delay_of : ℕ → ℕ → Result (ApiResponse × ℕ) → ℕ
delay_of attempt retry_base (err e) = attempt * retry_base
delay_of attempt retry_base (ok (resp, status)) =
    if ltb 0 resp.retry_after then resp.retry_after * second else attempt * retry_base

abbrev pub retry_base : ℕ
retry_base = second

-- An answer that is worth another attempt.
abbrev pub is_retryable : Result (ApiResponse × ℕ) → Bool
is_retryable (err e) = true
is_retryable (ok (resp, status)) = eqb status 429 || leb 500 status

abbrev pub is_success : Result (ApiResponse × ℕ) → Bool
is_success (err e) = false
is_success (ok (resp, status)) = eqb status 200 && resp.ok

unfoldable pub last_error : Payload → Result (ApiResponse × ℕ) → GoError
unfolding show
last_error payload (err e) = e
last_error payload (ok (resp, status)) = new_error (
    "telegram "
    <> (method_of payload <> (": status " <> (show status <> (": " <> resp.description)))))

abbrev pub message_id_of : Result ApiResponse → Result ℕ
message_id_of (ok r) = ok r.message_id
message_id_of (err e) = err e

module _ (A : Api) (limit : Time) where
  -- `sleepCtx`, for the context that is done at `limit`
  unfoldable pub sleep_ctx : ℕ → State A.State Bool
  sleep_ctx d h =
      if ltb (A.clock h + d) limit
      then (true, A.elapse d h)
      else (false, A.elapse (limit - A.clock h) h)

  -- What a pass of the loop does with an answer; `next` is the pass that follows, if there is one.
  unfoldable pub after_once :
      ℕ
      → ℕ
      → State A.State (Result ApiResponse)
      → Payload
      → Result (ApiResponse × ℕ)
      → State A.State (Result ApiResponse)
  unfolding sleep_ctx last_error
  after_once left attempt next payload (ok (resp, status)) =
      if is_success (ok (resp, status))
      then pure (ok resp)
      else if not (is_retryable (ok (resp, status))) || eqb left 0
      then pure (err (last_error payload (ok (resp, status))))
      else (do
        slept ← sleep_ctx (delay_of attempt retry_base (ok (resp, status)))
        if slept then next else pure (err (last_error payload (ok (resp, status)))))
  after_once left attempt next payload (err e) = if eqb left 0 then pure (err e) else (do
    slept ← sleep_ctx (delay_of attempt retry_base (err e))
    if slept then next else pure (err e))

  -- The pass of this number, and those that are left behind it.
  unfoldable pub passes : ℕ → ℕ → Payload → State A.State (Result ApiResponse)
  unfolding after_once
  passes zero attempt payload = do
    answer ← A.once payload
    after_once zero attempt (pure (err (new_error ""))) payload answer
  passes (suc left) attempt payload = do
    answer ← A.once payload
    after_once (suc left) attempt (passes left (suc attempt) payload) payload answer

  -- `call`
  unfoldable pub call : Payload → State A.State (Result ApiResponse)
  unfolding passes
  call payload = passes (max_attempts - 1) 1 payload

  -- `send`: 0 and an error, or the id of the message
  unfoldable pub send : String → String → State A.State (Result ℕ)
  unfolding call
  send chat_id text = do resp ← call (send_message chat_id text); pure (message_id_of resp)

  unfoldable pub edit : String → ℕ → String → State A.State (Option GoError)
  unfolding call
  edit chat_id message_id text = do
    resp ← call (edit_message_text chat_id message_id text)
    pure (elim resp [ ok r ↦ none | err e ↦ some e ])
