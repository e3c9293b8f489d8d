-- ===== src/Notify/Notifier/Waits.antt =====
-- Why `handleWait` exceeds `callTimeout`: a terminal notification does not overtake the start message.
use deploy_gateway.Base.{
  ℕ, ◌+◌, ◌<◌, ◌≤◌, String, ◌≡◌, ◌≢◌, refl, true, false, Option, none, some, GoError, Result, ok,
  err, arith, eqb, ltb,
}
use deploy_gateway.Base.StateMonad.{◌>>=◌}
use deploy_gateway.Store.{Time, second, Operation}
use deploy_gateway.Notify.Format.{render}
use deploy_gateway.Notify.Transport.{
  Api, ApiResponse, call_timeout, max_attempts, send_message, edit_message_text, call, send, edit,
}
use deploy_gateway.Notify.Transport.Laws.{Tried, Accepted, call-Accepted}
use deploy_gateway.Notify.Transport.Clock.{Bounded, lateness, call-InTime}
use deploy_gateway.Notify.Notifier.{
  settled, handle_wait, wait, found_by, start_message, edit_message, resolve_message,
}
use deploy_gateway.Notify.Notifier.Laws.{Landed, start_message-Landed}

module _ (A : Api) (chat_id : String) where
  -- What a terminal notification does with the message of the start: attempts to edit it, three at most,
  -- to the final text, and nothing else.
  pub record Edits (final : Operation) (id : ℕ) (k : A.State) (r : Option GoError × A.State)
      : Type 0 where
    pub tried : Tried A (edit_message_text chat_id id (render final)) max_attempts k r.1
    pub took :
        r.0 ≡ none
        → (resp : ApiResponse) × Accepted A (edit_message_text chat_id id (render final)) resp

  start_message-InTime :
      (op : Operation) (h : A.State) (lag : Time)
      → Bounded A (A.clock h + call_timeout) lag
      → A.clock (start_message A chat_id op h).1 ≤ A.clock h + call_timeout + lateness 2 lag
  unfolding start_message send ◌>>=◌
  start_message-InTime op h lag bounded =
      call-InTime A (A.clock h + call_timeout) lag (send_message chat_id (render op)) bounded h
        (omega arith)

  no_error :
      (r : Result ApiResponse)
      → (elim r as (λ _. Option GoError) [ ok resp ↦ none | err e ↦ some e ]) ≡ none
      → (resp : ApiResponse) × (r ≡ ok resp)
  no_error (ok resp) h = (resp, refl)
  no_error (err e) h = cc

  edit_message-Edits :
      (final : Operation) (id : ℕ) (k : A.State)
      → Edits final id k (edit_message A chat_id final id k)
  unfolding edit_message edit ◌>>=◌
  edit_message-Edits final id k =
      let payload = edit_message_text chat_id id (render final) in
      let (tried, took) = call-Accepted A (A.clock k + call_timeout) payload k in
      record {
        tried = tried;
        took = λ h.
            let (resp, e) = no_error (call A (A.clock k + call_timeout) payload k).0 h in
            (resp, took resp e);
      }

  -- The handle is settled before the wait is over.
  found_by-settled :
      (settled_at from : Time) (id : ℕ)
      → settled_at < from + handle_wait
      → found_by settled_at id from ≡ settled id
  unfolding found_by
  found_by-settled settled_at from id early =
      let in_time : ltb settled_at (from + handle_wait) ≡ true = ground arith in rw in_time refl

  resolve_message-settled :
      (final : Operation) (id : ℕ) (k : A.State)
      → id ≢ 0
      → resolve_message A chat_id final (settled id) k ≡ edit_message A chat_id final id k
  unfolding resolve_message wait
  resolve_message-settled final id k full =
      let nonzero : eqb id 0 ≡ false = ground arith in rw nonzero refl

  -- Let each sleep wake up, and each attempt of the Bot API be over, by some lag after its time or the
  -- deadline of its context. If the goroutine of the start notification begins within a second of the
  -- call, less five lags (three attempts, two sleeps), the terminal notification is not called before
  -- that call, and the start message landed, with an id that is not 0, then the wait of the terminal
  -- notification sees it, even if the send took all its time: the notification edits the message that
  -- shows this very operation to the final text, in three attempts at most, and posts no other.
  pub resolve_message-Edits :
      (op final : Operation) (called from lag : Time) (h k : A.State) (id : ℕ)
      → Bounded A (A.clock h + call_timeout) lag
      → A.clock h + lateness 2 lag < called + second
      → called ≤ from
      → (start_message A chat_id op h).0 ≡ settled id
      → id ≢ 0
      → Landed A chat_id op id
        × Edits final id k (
            resolve_message A chat_id final
              (found_by (A.clock (start_message A chat_id op h).1) id from)
              k)
  resolve_message-Edits op final called from lag h k id bounded soon later started full =
      let ends = start_message-InTime op h lag bounded in
      let early : A.clock (start_message A chat_id op h).1 < from + handle_wait = omega arith in
      (
        start_message-Landed A chat_id op h id started full,
        rw (found_by-settled _ from id early, resolve_message-settled final id k full)
            (edit_message-Edits final id k),
      )
