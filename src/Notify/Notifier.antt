-- ===== src/Notify/Notifier.antt =====
-- internal/notify/notify.go: the two calls of the notifier, each with the work that it leaves to a
-- goroutine, and the handle between them.
pub mod Laws
pub mod Waits
use deploy_gateway.Base.{
  ℕ, ◌+◌, String, ◌==◌, Bool, ◌||◌, Option, none, some, GoError, Result, ok, err, eqb, ltb,
  if◌then◌else◌,
}
use deploy_gateway.Base.StateMonad.{State, pure, gets, ◌>>=◌, ◌>>◌}
use deploy_gateway.Store.{Time, second, Operation}
use deploy_gateway.Notify.Format.{render}
use deploy_gateway.Notify.Http.{Transport, new_transport}
use deploy_gateway.Notify.Transport.{Api, call_timeout, send, edit}

abbrev pub handle_wait : ℕ
handle_wait = call_timeout + second

pub record Config : Type 0 where
  pub bot_token : String
  pub chat_id : String
  pub api_base : String

-- `New`: no notifier, or the transport of the Telegram notifier.
unfoldable pub new_notifier : Config → Option Transport
unfolding new_transport
new_notifier cfg =
    if cfg.bot_token == "" || cfg.chat_id == ""
    then none
    else some (
        new_transport (if cfg.api_base == "" then "https://api.telegram.org" else cfg.api_base)
          cfg.bot_token)

-- `*Message`, as `wait` finds it within its timeout: nil, not ready, or settled with an id.
pub data Message : Type 0 where
  nil pending : Message
  settled : ℕ → Message

-- `wait`
unfoldable pub wait : Message → ℕ
wait nil = 0
wait pending = 0
wait (settled id) = id

-- What `wait` finds from a time on, of a handle that is settled at some time.
unfoldable pub found_by : Time → ℕ → Time → Message
found_by settled_at id from = if ltb settled_at (from + handle_wait) then settled id else pending

-- `send` returns the id 0 with an error.
abbrev pub id_or_zero : Result ℕ → ℕ
id_or_zero (ok id) = id
id_or_zero (err e) = 0

module _ (A : Api) (chat_id : String) where
  -- The goroutine of `Started`; the id that `settle` records is 0 if the send failed.
  unfoldable pub start_message : Operation → State A.State Message
  start_message op = do
    start ← gets A.clock
    sent ← send A (start + call_timeout) chat_id (render op)
    pure (settled (id_or_zero sent))

  send_fresh : Operation → State A.State (Option GoError)
  send_fresh op = do
    start ← gets A.clock
    sent ← send A (start + call_timeout) chat_id (render op)
    pure (elim sent [ ok id ↦ none | err e ↦ some e ])

  pub edit_message : Operation → ℕ → State A.State (Option GoError)
  edit_message op id = do start ← gets A.clock; edit A (start + call_timeout) chat_id id (render op)

  -- The goroutine of `Resolved`
  unfoldable pub resolve_message : Operation → Message → State A.State (Option GoError)
  unfolding send_fresh edit_message wait
  resolve_message op msg = if eqb (wait msg) 0 then send_fresh op else edit_message op (wait msg)
