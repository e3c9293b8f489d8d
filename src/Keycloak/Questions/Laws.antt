-- ===== src/Keycloak/Questions/Laws.antt =====
-- What a verdict of `Evaluate` rests on.
use deploy_gateway.Base.{
  ℕ, String, ◌<>◌, ◌≡◌, refl, Bool, true, false, Result, ok, err, arith, eq_iff,
}
use deploy_gateway.Base.StateMonad.{◌>>=◌}
use deploy_gateway.Keycloak.Http.{Config, evaluation, post_method, Server}
use deploy_gateway.Keycloak.Client.{Client, verdict_of, admin, resource_server_uuid}
use deploy_gateway.Keycloak.Client.Laws.{Answered, admin_call-Answered}
use deploy_gateway.Keycloak.Questions.{evaluate, ask_verdict, status_of}

-- The word for a verdict.
abbrev pub word : Bool → String
word true = "PERMIT"
word false = "DENY"

verdict_of-ok :
    (is_print : ℕ → Bool) (status : String) (b : Bool)
    → verdict_of is_print status ≡ ok b
    → status ≡ word b
unfolding verdict_of
verdict_of-ok is_print status true h = ground (arith, eq_iff status "PERMIT", eq_iff status "DENY")
verdict_of-ok is_print status false h = ground (arith, eq_iff status "PERMIT", eq_iff status "DENY")

module _ (H : Server) (cfg : Config) where
  -- The server answered the question with this word.
  pub record Said (user resource scope : String) (b : Bool) : Type 0 where
    pub uuid : String
    pub raw : H.Body
    pub answered :
        Answered H cfg post_method
          (admin H cfg
            ("/clients/" <> (H.path_escape uuid <> "/authz/resource-server/policy/evaluate")))
          (evaluation (record { resource = resource; scope = scope; user_id = user }))
          raw
    pub status : H.decode_status raw ≡ ok (word b)

  status_of-ok :
      (r : Result H.Body) (b : Bool)
      → status_of H cfg r ≡ ok b
      → (raw : H.Body) × (r ≡ ok raw) × (H.decode_status raw ≡ ok (word b))
  unfolding status_of
  status_of-ok (err e) b h = cc
  status_of-ok (ok raw) b h = (raw, refl, decoded (H.decode_status raw) h)
    where
      decoded :
          (d : Result String)
          → (elim d [
            | ok status ↦ verdict_of H.is_print status
            | err e ↦ err (record {
              kind = e.kind;
              message = ("keycloak: decode evaluate response" <> (": " <> e.message));
            })
          ])
            ≡ ok b
          → d ≡ ok (word b)
      decoded (ok status) k = let w = verdict_of-ok H.is_print status b k in cc
      decoded (err e) k = cc

  ask_verdict-Said :
      (user resource scope : String) (u : Result String) (c : Client H) (b : Bool)
      → (ask_verdict H cfg user resource scope u c).0 ≡ ok b
      → Said user resource scope b
  unfolding ask_verdict ◌>>=◌
  ask_verdict-Said user resource scope (err e) c b h = cc
  ask_verdict-Said user resource scope (ok uuid) c b h =
      let (raw, answer, status) = status_of-ok _ b h in
      record {
        uuid = uuid;
        raw = raw;
        answered = admin_call-Answered H cfg _ _ _ c raw answer;
        status = status;
      }

  -- A verdict of `Evaluate` is an answer of the server to the question about this user, this resource
  -- and this scope, with a status below 400 and the word PERMIT for a grant and DENY for a denial: no
  -- error and no other word becomes a decision.
  pub evaluate-Said :
      (user resource scope : String) (c : Client H) (b : Bool)
      → (evaluate H cfg user resource scope c).0 ≡ ok b
      → Said user resource scope b
  unfolding evaluate ◌>>=◌
  evaluate-Said user resource scope c b h =
      ask_verdict-Said user resource scope (resource_server_uuid H cfg c).0 _ b h
