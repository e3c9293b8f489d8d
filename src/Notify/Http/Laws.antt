-- ===== src/Notify/Http/Laws.antt =====
-- The token of the bot shows in no outcome.
use deploy_gateway.Base.{ℕ, String, ◌≡◌, refl, Option, none, some, GoError, Result, ok, err}
use deploy_gateway.Store.{Time}
use deploy_gateway.Notify.Transport.{ApiResponse, Payload, call}
use deploy_gateway.Notify.Transport.Alike.{Alike, call-Same}
use deploy_gateway.Notify.Http.{
  Http, Transport, url_of, answered, requested, marshalled, once, http_api,
}

-- Both fail, with errors of whatever text, or both give the same.
abbrev pub GivesSame : Result (ℕ × String) → Result (ℕ × String) → Type 0
GivesSame (err e) (err e') = Unit
GivesSame (ok a) (ok b) = a ≡ b
GivesSame _ _ = ⊥

abbrev pub FailsSame : Option GoError → Option GoError → Type 0
FailsSame none none = Unit
FailsSame (some e) (some e') = Unit
FailsSame _ _ = ⊥

-- The server takes either token for this bot's, and the libraries treat the two URLs alike but for the
-- texts of errors, which may show the URL.
pub record Interchangeable (H : Http) (t u : Transport) : Type 1 where
  pub Agree : H.State → H.State → Type 0
  pub clock-same : {h k : H.State} → Agree h k → H.clock h ≡ H.clock k
  pub elapse-Agree : (d : ℕ) {h k : H.State} → Agree h k → Agree (H.elapse d h) (H.elapse d k)
  pub requests :
      (payload : Payload)
      → FailsSame (H.new_request (url_of t payload)) (H.new_request (url_of u payload))
  pub answers :
      (payload : Payload) (body : String) {h k : H.State}
      → Agree h k
      → GivesSame (H.send (url_of t payload) body h).0 (H.send (url_of u payload) body k).0
        × Agree (H.send (url_of t payload) body h).1 (H.send (url_of u payload) body k).1

module _ (H : Http) (t u : Transport) (same : Interchangeable H t u) where
  abbrev Outcomes : Result (ApiResponse × ℕ) × H.State → Result (ApiResponse × ℕ) × H.State → Type 0
  Outcomes r s = (r.0 ≡ s.0) × same.Agree r.1 s.1

  answered-same :
      (payload : Payload) (r s : Result (ℕ × String)) (h k : H.State)
      → GivesSame r s
      → same.Agree h k
      → Outcomes (answered H payload (r, h)) (answered H payload (s, k))
  unfolding answered
  answered-same payload (err e) (err e') h k b g = (refl, g)
  answered-same payload (ok a) (ok b) h k e g = rw e (refl, g)
  answered-same payload (ok a) (err e) h k b g = elim b [ ]
  answered-same payload (err e) (ok b) h k c g = elim c [ ]

  requested-same :
      (payload : Payload) (body : String) (o p : Option GoError) (h k : H.State)
      → FailsSame o p
      → same.Agree h k
      → Outcomes (requested H t payload body o h) (requested H u payload body p k)
  unfolding requested
  requested-same payload body none none h k b g =
      let (gives, agree) = same.answers payload body g in
      answered-same payload (H.send (url_of t payload) body h).0
        (H.send (url_of u payload) body k).0 (H.send (url_of t payload) body h).1
        (H.send (url_of u payload) body k).1 gives agree
  requested-same payload body (some e) (some e') h k b g = (refl, g)
  requested-same payload body none (some e) h k b g = elim b [ ]
  requested-same payload body (some e) none h k b g = elim b [ ]

  marshalled-same :
      (payload : Payload) (r : Result String) (h k : H.State)
      → same.Agree h k
      → Outcomes (marshalled H t payload r h) (marshalled H u payload r k)
  unfolding marshalled
  marshalled-same payload (err e) h k g = (refl, g)
  marshalled-same payload (ok body) h k g =
      requested-same payload body _ _ h k (same.requests payload) g

  once-same :
      (payload : Payload) (h k : H.State)
      → same.Agree h k
      → Outcomes (once H t payload h) (once H u payload k)
  unfolding once
  once-same payload h k g = marshalled-same payload (H.marshal payload) h k g

  abbrev tokens_alike : Alike (http_api H t) (http_api H u)
  tokens_alike = record {
    Agree = same.Agree;
    clock-same = λ g. same.clock-same g;
    elapse-Agree = λ d g. same.elapse-Agree d g;
    once-same = λ payload g. once-same payload _ _ g;
  }

  -- If the libraries and the server treat two tokens alike but for the texts of their own errors,
  -- which may show the URL, then a call of the Bot API, with its retries, comes to the same with
  -- both: the answer, or the error with its text, has no part of the token.
  pub call_same :
      (limit : Time) (payload : Payload) (h k : H.State)
      → same.Agree h k
      → (call (http_api H t) limit payload h).0 ≡ (call (http_api H u) limit payload k).0
  call_same limit payload h k g =
      (call-Same (http_api H t) (http_api H u) tokens_alike limit payload h k g).0
