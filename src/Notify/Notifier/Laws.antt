-- ===== src/Notify/Notifier/Laws.antt =====
-- Which message a terminal notification edits.
use deploy_gateway.Base.{ℕ, ◌+◌, String, ◌≡◌, ◌≢◌, sym, refl, Result, ok, err}
use deploy_gateway.Base.StateMonad.{◌>>=◌}
use deploy_gateway.Store.{Operation}
use deploy_gateway.Notify.Format.{render}
use deploy_gateway.Notify.Transport.{
  ApiResponse, message_id_of, Api, call_timeout, send_message, call, send,
}
use deploy_gateway.Notify.Transport.Laws.{Accepted, call-Accepted}
use deploy_gateway.Notify.Notifier.{settled, id_or_zero, start_message}

module _ (A : Api) (chat_id : String) where
  -- The server took the message of this operation and gave it this id.
  pub record Landed (op : Operation) (id : ℕ) : Type 0 where
    pub resp : ApiResponse
    pub accepted : Accepted A (send_message chat_id (render op)) resp
    pub id_is : resp.message_id ≡ id

  settled-Landed :
      (op : Operation) (id : ℕ) (r : Result ApiResponse)
      → ((resp : ApiResponse) → r ≡ ok resp → Accepted A (send_message chat_id (render op)) resp)
      → id_or_zero (message_id_of r) ≡ id
      → id ≢ 0
      → Landed op id
  settled-Landed op id (ok resp) took e full = record {
    resp = resp;
    accepted = took resp refl;
    id_is = e;
  }
  settled-Landed op id (err x) took e full = elim (full (sym e)) [ ]

  -- A handle that is settled with an id other than 0 stands for a message in the chat: the server took
  -- the text of this very operation and answered with that id.
  pub start_message-Landed :
      (op : Operation) (h : A.State) (id : ℕ)
      → (start_message A chat_id op h).0 ≡ settled id
      → id ≢ 0
      → Landed op id
  unfolding start_message send ◌>>=◌
  start_message-Landed op h id e full =
      settled-Landed op id
        (call A (A.clock h + call_timeout) (send_message chat_id (render op)) h).0
        (call-Accepted A (A.clock h + call_timeout) (send_message chat_id (render op)) h).1 (cc)
        full
