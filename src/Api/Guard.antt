-- ===== src/Api/Guard.antt =====
-- What stands between a request and a change: a verified token and the authorizer's decision.
use deploy_gateway.Base.{
  String, ◌==◌, ◌≡◌, ◌⊎◌, refl, inl, inr, Bool, true, false, ◌||◌, Option, none, some, Result, ok,
  err, GoError, if◌then◌else◌,
}
use deploy_gateway.Base.Text.{has_prefix, trim_prefix}
use deploy_gateway.Base.StateMonad.{pure, ◌>>=◌, ◌>>◌}
use deploy_gateway.Store.{Operation, denied}
use deploy_gateway.Authn.{GitHubIdentity}
use deploy_gateway.Authz.{Request, Decision}
use deploy_gateway.Manager.World.{on_store, now}
use deploy_gateway.Manager.Start.{action_restart, action_rollout}
use deploy_gateway.Api.{
  Route, healthz, readyz, restarts, rolls_out, gets_operation, HttpRequest, Response, Deps, Server,
}
use deploy_gateway.Api.Responses.{write_error, denied_operation, question}
use deploy_gateway.Api.Handlers.{
  H, on_world, on_authz, record_denied, after_decision, authorize, run_restart, run_rollout,
  handle_restart, handle_rollout, handle, with_identity, authenticate, routed, serve,
}

-- The route of a restart or a rollout.
abbrev pub writes : Route → Bool
writes (restarts body) = true
writes (rolls_out body) = true
writes _ = false

-- The question about an identity's repository and ref, an action and a target.
abbrev pub about : GitHubIdentity → String → String → String → Request
about id action namespace deployment = record {
  repository = id.repository;
  action = action;
  namespace = namespace;
  deployment = deployment;
  ref = id.ref;
}

-- What such a request asks of the authorizer, if its body has all that is required.
abbrev pub asked : GitHubIdentity → Route → Option Request
asked id (restarts (ok b)) =
    if b.namespace == "" || b.deployment == ""
    then none
    else some (about id "deployment.restart" b.namespace b.deployment)
asked id (rolls_out (ok b)) =
    if b.namespace == "" || (b.deployment == "" || b.image == "")
    then none
    else some (about id "deployment.rollout" b.namespace b.deployment)
asked id _ = none

module _ (d : Deps) where
  -- The request bears a token that verifies as this identity.
  pub record Verified (req : HttpRequest) (id : GitHubIdentity) : Type 0 where
    pub bearer : has_prefix req.authorization "Bearer " ≡ true
    pub token : d.verify (trim_prefix req.authorization "Bearer ") ≡ ok id

  -- The authorizer was asked for this request of this identity, and decided.
  pub record Decided (req : HttpRequest) (s : Server d) (allowed : Bool) : Type 0 where
    pub id : GitHubIdentity
    pub verified : Verified req id
    pub question : Request
    pub asks : asked id req.route ≡ some question
    pub decision : Decision
    pub answer : (d.authz.authorize question s.authz).0 ≡ ok decision
    pub allowed_is : decision.allowed ≡ allowed

  -- What the server does with a request: refuse it and ask nobody, report that the authorizer has no
  -- decision, deny it and write one row, or act on it.
  pub data Guarded (req : HttpRequest) (s : Server d) (r : Response × Server d) : Type 0 where
    refused : (r.0.status ≡ 400) ⊎ (r.0.status ≡ 401) → r.1 ≡ s → Guarded req s r
    unavailable :
        (id : GitHubIdentity) (q : Request) (e : GoError)
        → Verified req id
        → asked id req.route ≡ some q
        → (d.authz.authorize q s.authz).0 ≡ err e
        → r.0 ≡ write_error 503 "AUTHZ_UNAVAILABLE" "authorization service unavailable"
        → r.1.world ≡ s.world
        → Guarded req s r
    denied_row :
        Decided req s false
        → r.0 ≡ write_error 403 "FORBIDDEN" "not allowed"
        → (op : Operation) → op.status ≡ denied
        → r.1.world ≡ record s.world { store = (d.store.put_operation op s.world.store).1 }
        → Guarded req s r
    acted : Decided req s true → Guarded req s r

  module _ (req : HttpRequest) (s : Server d) (id : GitHubIdentity) (v : Verified req id) where
    after_decision-Guarded :
        (action ns dep container image : String) (next : H d Response) (dec : Result Decision)
        → asked id req.route ≡ some (question id action ns dep)
        → (d.authz.authorize (question id action ns dep) s.authz).0 ≡ dec
        → (z : d.authz.State)
        → Guarded req s (
            after_decision d req.ulid id action ns dep container image next dec
              (record s { authz = z }))
    unfolding after_decision ◌>>=◌ on_world on_store now
    after_decision-Guarded action ns dep container image next (err e) a h z =
        unavailable id (question id action ns dep) e v a h refl refl
    after_decision-Guarded action ns dep container image next (ok dec) a h z =
        by_allowed dec.allowed refl
      where
        by_allowed :
            (b : Bool)
            → dec.allowed ≡ b
            → Guarded req s (
                (if b then next else (do
                  on_world d (record_denied d req.ulid id action ns dep container image dec.reason)
                  pure (write_error 403 "FORBIDDEN" "not allowed")))
                  (record s { authz = z }))
        by_allowed true e = acted (record {
          id = id;
          verified = v;
          question = question id action ns dep;
          asks = a;
          decision = dec;
          answer = h;
          allowed_is = e;
        })
        by_allowed false e =
            denied_row
              (record {
                id = id;
                verified = v;
                question = question id action ns dep;
                asks = a;
                decision = dec;
                answer = h;
                allowed_is = e;
              })
              refl
              (denied_operation req.ulid id action ns dep container image dec.reason
                (d.platform.clock s.world.platform))
              refl refl

    authorize-Guarded :
        (action ns dep container image : String) (next : H d Response)
        → asked id req.route ≡ some (question id action ns dep)
        → Guarded req s (authorize d req.ulid id action ns dep container image next s)
    unfolding authorize ◌>>=◌ on_authz
    authorize-Guarded action ns dep container image next a =
        after_decision-Guarded action ns dep container image next
          (d.authz.authorize (question id action ns dep) s.authz).0 a refl
          (d.authz.authorize (question id action ns dep) s.authz).1

    -- A test on the body in front of the authorization.
    tested :
        (b : Bool) (reply : Response) (m : H d Response)
        → reply.status ≡ 400
        → (b ≡ false → Guarded req s (m s))
        → Guarded req s ((if b then pure reply else m) s)
    unfolding ◌>>=◌
    tested true reply m bad g = refused (inl bad) refl
    tested false reply m bad g = g refl

    handle-Guarded :
        (route : Route)
        → req.route ≡ route
        → writes route ≡ true
        → Guarded req s (handle d req.ulid id route s)
    unfolding handle handle_restart handle_rollout ◌>>=◌
    handle-Guarded healthz e w = cc
    handle-Guarded readyz e w = cc
    handle-Guarded (gets_operation op_id) e w = cc
    handle-Guarded (restarts (err x)) e w = refused (inl refl) refl
    handle-Guarded (restarts (ok b)) e w =
        tested (b.namespace == "" || b.deployment == "") _ _ refl λ full.
          authorize-Guarded action_restart b.namespace b.deployment "" ""
            (run_restart d req.ulid id b) (rw e (rw full refl))
    handle-Guarded (rolls_out (err x)) e w = refused (inl refl) refl
    handle-Guarded (rolls_out (ok b)) e w =
        tested (b.namespace == "" || (b.deployment == "" || b.image == "")) _ _ refl λ full.
          authorize-Guarded action_rollout b.namespace b.deployment b.container b.image
            (run_rollout d req.ulid id b) (rw e (rw full refl))

  with_identity-Guarded :
      (req : HttpRequest) (s : Server d) (r : Result GitHubIdentity)
      → d.verify (trim_prefix req.authorization "Bearer ") ≡ r
      → has_prefix req.authorization "Bearer " ≡ true
      → writes req.route ≡ true
      → Guarded req s (with_identity d req.ulid req.route r s)
  unfolding with_identity ◌>>=◌
  with_identity-Guarded req s (err e) h bearer w = refused (inr refl) refl
  with_identity-Guarded req s (ok id) h bearer w =
      handle-Guarded req s id (record { bearer = bearer; token = h }) req.route refl w

  authenticate-Guarded :
      (req : HttpRequest) (s : Server d) (b : Bool)
      → has_prefix req.authorization "Bearer " ≡ b
      → writes req.route ≡ true
      → Guarded req s (
          (if b
              then with_identity d req.ulid req.route
                  (d.verify (trim_prefix req.authorization "Bearer "))
              else pure (write_error 401 "UNAUTHENTICATED" "missing bearer token"))
            s)
  unfolding ◌>>=◌
  authenticate-Guarded req s true h w = with_identity-Guarded req s _ refl h w
  authenticate-Guarded req s false h w = refused (inr refl) refl

  pub routed_write :
      (req : HttpRequest) (route : Route)
      → writes route ≡ true
      → routed d req route ≡ authenticate d req
  unfolding routed
  routed_write req healthz w = cc
  routed_write req readyz w = cc
  routed_write req (gets_operation op_id) w = cc
  routed_write req (restarts body) w = refl
  routed_write req (rolls_out body) w = refl

  -- The server acts on a request for a restart or a rollout only if its bearer token verifies as an
  -- identity and the authorizer, asked for this identity's repository and ref and for the very action
  -- and target of the body, allows it. Otherwise it answers 400 or 401 and changes nothing; or the
  -- authorizer has no decision, and it answers 503 AUTHZ_UNAVAILABLE and leaves the operations, the cluster
  -- and the chat alone; or the decision is a denial, and it answers 403 and does nothing but put one
  -- row with the status denied.
  pub serve-Guarded :
      (req : HttpRequest) (s : Server d) → writes req.route ≡ true → Guarded req s (serve d req s)
  unfolding serve authenticate
  serve-Guarded req s w = rw (routed_write req req.route w) (authenticate-Guarded req s _ refl w)
