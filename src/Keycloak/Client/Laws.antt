-- ===== src/Keycloak/Client/Laws.antt =====
-- What the answers of the client rest on: an answer of the server, and what stands in it.
use mathlib.Core.Path.{subst}
use deploy_gateway.Base.{
  ℕ, zero, suc, ◌<◌, String, not, ◌&&◌, ◌==◌, ◌≡◌, ◌≢◌, ◌⊎◌, refl, inl, inr, true, false, Option,
  none, some, List, [], ◌∷◌, Result, ok, err, GoError, new_error, arith, eq_iff, Any, Bool-cases,
}
use deploy_gateway.Base.Text.{equal_fold}
use deploy_gateway.Base.StateMonad.{◌>>=◌}
use deploy_gateway.Keycloak.Http.{Config, UserEntry, Payload, Method, Server}
use deploy_gateway.Keycloak.Client.{
  Client, K, Attempt, done, again, transmit, after_answer, with_request, with_token, attempt,
  after_attempt, attempts, admin_call, find_user, bearer, read_body,
}

-- The first user of the list with an id and with this name up to case.
pub record Names (username id : String) (u : UserEntry) : Type 0 where
  pub id_is : u.id ≡ id
  pub has_id : (u.id == "") ≡ false
  pub name : equal_fold u.username username ≡ true

-- A user that is found stands in the server's list under the name that was asked for, up to case, and
-- has an id: neither a neighbour nor an entry without an id takes its place.
pub find_user-Names :
    (username id : String) (us : List UserEntry)
    → find_user username us ≡ some id
    → Any (Names username id) us × (id ≢ "")
unfolding find_user
find_user-Names username id [] h = cc
find_user-Names username id (u ∷ us) h =
    elim (Bool-cases (not (u.id == "") && equal_fold u.username username)) [
      | inl e ↦
          let id_is : u.id ≡ id = cc in
          (
            inl (record { id_is = id_is; has_id = ground arith; name = ground arith }),
            λ empty. ground (arith, eq_iff u.id ""),
          )
      | inr e ↦ let (x, y) = find_user-Names username id us (cc) in (inr x, y)
    ]

module _ (H : Server) (cfg : Config) where
  -- An answer of the server to this request that is no error: its status is below 400.
  pub record Answered (method : Method) (url : String) (body : Payload) (raw : H.Body)
      : Type 0 where
    pub before : H.State
    pub token : String
    pub status : ℕ
    pub sent : (H.send method url token body before).0 ≡ ok (status, ok raw)
    pub low : status < 400

  after_answer-Answered :
      (method : Method) (url tok : String) (body : Payload) (before : H.State)
      (resp : Result (ℕ × Result H.Body)) (c : Client H) (raw : H.Body)
      → (H.send method url tok body before).0 ≡ resp
      → (after_answer H cfg method resp c).0 ≡ done (ok raw)
      → Answered method url body raw
  unfolding after_answer read_body ◌>>=◌
  after_answer-Answered method url tok body before (err e) c raw sent h = cc
  after_answer-Answered method url tok body before (ok (status, err e)) c raw sent h = ground arith
  after_answer-Answered method url tok body before (ok (status, ok out)) c raw sent h =
      let same : out ≡ raw = ground arith in
      record {
        before = before;
        token = tok;
        status = status;
        sent = subst (λ b. (H.send method url tok body before).0 ≡ ok (status, ok b)) same sent;
        low = ground arith;
      }

  with_request-Answered :
      (method : Method) (url tok : String) (body : Payload) (refused : Option GoError)
      (c : Client H) (raw : H.Body)
      → (with_request H cfg method url body tok refused c).0 ≡ done (ok raw)
      → Answered method url body raw
  unfolding with_request ◌>>=◌ transmit
  with_request-Answered method url tok body (some e) c raw h = cc
  with_request-Answered method url tok body none c raw h =
      after_answer-Answered method url tok body c.server _ _ raw refl h

  with_token-Answered :
      (method : Method) (url : String) (body : Payload) (tok : Result String) (c : Client H)
      (raw : H.Body)
      → (with_token H cfg method url body tok c).0 ≡ done (ok raw)
      → Answered method url body raw
  unfolding with_token ◌>>=◌
  with_token-Answered method url body (err e) c raw h = cc
  with_token-Answered method url body (ok tok) c raw h =
      with_request-Answered method url tok body (H.build_error url) c raw h

  attempt-Answered :
      (method : Method) (url : String) (body : Payload) (c : Client H) (raw : H.Body)
      → (attempt H cfg method url body c).0 ≡ done (ok raw)
      → Answered method url body raw
  unfolding attempt ◌>>=◌
  attempt-Answered method url body c raw h =
      with_token-Answered method url body (bearer H cfg c).0 (bearer H cfg c).1 raw h

  after_attempt-ok :
      (a : Attempt H.Body) (rest : GoError → K H cfg (Result H.Body)) (c : Client H) (raw : H.Body)
      → (after_attempt H cfg a rest c).0 ≡ ok raw
      → (a ≡ done (ok raw)) ⊎ ((e : GoError) × ((rest e c).0 ≡ ok raw))
  unfolding after_attempt ◌>>=◌
  after_attempt-ok (done r) rest c raw h = inl cc
  after_attempt-ok (again e) rest c raw h = inr (e, h)

  attempts-Answered :
      (n : ℕ) (method : Method) (url : String) (body : Payload) (last_err : GoError) (c : Client H)
      (raw : H.Body)
      → (attempts H cfg n method url body last_err c).0 ≡ ok raw
      → Answered method url body raw
  unfolding attempts ◌>>=◌
  attempts-Answered zero method url body last_err c raw h = cc
  attempts-Answered (suc n) method url body last_err c raw h =
      elim (after_attempt-ok (attempt H cfg method url body c).0 _ _ raw h) [
        | inl e ↦ attempt-Answered method url body c raw e
        | inr (e, k) ↦ attempts-Answered n method url body e _ raw k
      ]

  -- A call that succeeds returns the body of an answer of the server to this very request, an answer
  -- with a status below 400.
  pub admin_call-Answered :
      (method : Method) (url : String) (body : Payload) (c : Client H) (raw : H.Body)
      → (admin_call H cfg method url body c).0 ≡ ok raw
      → Answered method url body raw
  unfolding admin_call
  admin_call-Answered method url body c raw h =
      attempts-Answered 2 method url body (new_error "") c raw h
