-- ===== src/Keycloak/Authorizer/Grants.antt =====
-- What a permit of an evaluation rests on.
use deploy_gateway.Base.{
  String, ◌≡◌, ◌≢◌, ◌⊎◌, refl, sym, ap, ◌∙◌, Any, [], Bool, true, false, List, Result, ok, err,
  GoError, is_no_subject, if◌then◌else◌,
}
use deploy_gateway.Base.StateMonad.{◌>>=◌}
use deploy_gateway.Authz.{Request}
use deploy_gateway.Authz.Ref.{match_ref}
use deploy_gateway.Authz.Ref.Laws.{Permits, Malformed, match_ref-true_iff}
use deploy_gateway.Keycloak.Http.{Config, Server}
use deploy_gateway.Keycloak.Client.{Client}
use deploy_gateway.Keycloak.Questions
use deploy_gateway.Keycloak.Questions.{user_id, allowed_refs}
use deploy_gateway.Keycloak.Questions.Laws.{Said, evaluate-Said}
use deploy_gateway.Keycloak.Authorizer.{
  resource_name, grant_denied, ref_denied, ref_decision, with_refs, with_grant, with_user, evaluate,
}
use deploy_gateway.Keycloak.Authorizer.History.{Allows}

-- There is no constraint, or all are well-formed and one permits the ref.
abbrev pub RefOk : List String → String → Type 0
RefOk refs ref = (refs ≡ []) ⊎ ((¬ Any Malformed refs) × (ref ≢ "") × Any (λ p. Permits p ref) refs)

module _ (H : Server) (cfg : Config) (req : Request) where
  -- The client as the subject's lookup and the question to the server leave it.
  abbrev after_permit : String → Client H → Client H
  after_permit user c =
      (Questions.evaluate H cfg user (resource_name req) req.action
        (user_id H cfg req.repository c).1).1

  -- The three answers behind a permit: a subject, the server's PERMIT for it, and refs that permit.
  pub record Granted (c : Client H) : Type 0 where
    pub user : String
    pub user_found : (user_id H cfg req.repository c).0 ≡ ok user
    pub said : Said H cfg user (resource_name req) req.action true
    pub refs : List String
    pub refs_found :
        (allowed_refs H cfg (resource_name req) req.action (after_permit user c)).0 ≡ ok refs
    pub ref_ok : RefOk refs req.ref

  with_refs-Allows :
      (r : Result (List String))
      → Allows (with_refs H cfg req r)
      → (refs : List String) × (r ≡ ok refs) × RefOk refs req.ref
  unfolding with_refs ref_decision ref_denied
  with_refs-Allows (err e) h = elim h [ ]
  with_refs-Allows (ok refs) h =
      (refs, refl, (match_ref-true_iff refs req.ref).0 (matched (match_ref refs req.ref) h))
    where
      matched : (m : Result Bool) → (ref_decision req m).allowed ≡ true → m ≡ ok true
      matched (err e) k = cc
      matched (ok true) k = refl
      matched (ok false) k = cc

  with_grant-Granted :
      (user : String) (r : Result Bool) (c0 c : Client H)
      → (user_id H cfg req.repository c0).0 ≡ ok user
      → c ≡ after_permit user c0
      → (r ≡ ok true → Said H cfg user (resource_name req) req.action true)
      → Allows (with_grant H cfg req r c).0
      → Granted c0
  unfolding with_grant ◌>>=◌ grant_denied
  with_grant-Granted user (err e) c0 c found same said h = elim h [ ]
  with_grant-Granted user (ok false) c0 c found same said h = cc
  with_grant-Granted user (ok true) c0 c found same said h =
      let (refs, refs_found, ref_ok) = with_refs-Allows _ h in
      record {
        user = user;
        user_found = found;
        said = said refl;
        refs = refs;
        refs_found =
            ap (λ x. (allowed_refs H cfg (resource_name req) req.action x).0) (sym same)
            ∙ refs_found;
        ref_ok = ref_ok;
      }

  no-Allows : (b : Bool) (e : GoError) → Allows (if b then ok (grant_denied req) else err e) → ⊥
  unfolding grant_denied
  no-Allows true e h = cc
  no-Allows false e h = h

  with_user-Granted :
      (u : Result String) (c0 : Client H)
      → (user_id H cfg req.repository c0).0 ≡ u
      → Allows (with_user H cfg req u (user_id H cfg req.repository c0).1).0
      → Granted c0
  unfolding with_user ◌>>=◌
  with_user-Granted (err e) c0 found h = elim (no-Allows (is_no_subject e) e h) [ ]
  with_user-Granted (ok user) c0 found h =
      with_grant-Granted user
        (Questions.evaluate H cfg user (resource_name req) req.action
          (user_id H cfg req.repository c0).1).0
        c0 _ found refl
        (λ k.
          evaluate-Said H cfg user (resource_name req) req.action
            (user_id H cfg req.repository c0).1 true k)
        h

  -- An evaluation permits a request only if the repository has a subject, the server answered the
  -- question about this subject, this deployment and this action with PERMIT, and the allowed refs that
  -- it then gets for the deployment and the action, on the client as those two calls leave it, permit the
  -- ref of the request.
  pub evaluate-Granted : (c : Client H) → Allows (evaluate H cfg req c).0 → Granted c
  unfolding evaluate ◌>>=◌
  evaluate-Granted c h = with_user-Granted (user_id H cfg req.repository c).0 c refl h
