-- ===== src/Api/Accepted.antt =====
-- What the server has done when it answers 202: the guard of the request and the manager's work together.
use deploy_gateway.Base.{
  String, ◌==◌, ◌≡◌, refl, Bool, true, false, ◌||◌, some, Result, ok, err, if◌then◌else◌, arith,
}
use deploy_gateway.Base.Text.{has_prefix, trim_prefix}
use deploy_gateway.Base.StateMonad.{pure, ◌>>=◌, ◌>>◌}
use deploy_gateway.Store.Api.{View, IsLawful}
use deploy_gateway.Authn.{GitHubIdentity}
use deploy_gateway.Authz.{Decision}
use deploy_gateway.Manager.Start.{action_restart, action_rollout}
use deploy_gateway.Manager.Reconcile.{get}
use deploy_gateway.Api.{
  Route, healthz, readyz, restarts, rolls_out, gets_operation, HttpRequest, Response, Deps, Server,
}
use deploy_gateway.Api.Responses.{write_error, question}
use deploy_gateway.Api.Handlers.{
  H, on_world, on_authz, record_denied, after_decision, authorize, run_restart, run_rollout,
  handle_restart, handle_rollout, handle_get_operation, handle_readyz, handle, with_identity,
  authenticate, routed, serve,
}
use deploy_gateway.Api.Status.{operation_response_refuses, store_readiness_refuses}
use deploy_gateway.Api.Guard.{asked, Verified, Decided}
use deploy_gateway.Api.Work.{Accepted, run_restart-Accepted, run_rollout-Accepted}

module _ (d : Deps) (view : View d.store) (lawful : IsLawful d.store view) where
  -- A method that answers 202 only for an accepted request, from every state of the authorizer.
  module _ (req : HttpRequest) (s : Server d) (id : GitHubIdentity) (v : Verified d req id) where
    -- A reply that is not 202, in front of a method.
    past :
        (b : Bool) (m n : H d Response) (t : Server d)
        → ((m t).0.status ≡ 202 → ⊥)
        → (b ≡ false → (n t).0.status ≡ 202 → Accepted d view lawful req s (n t))
        → ((if b then m else n) t).0.status ≡ 202
        → Accepted d view lawful req s ((if b then m else n) t)
    past true m n t refuses accepts h = absurd (refuses h)
    past false m n t refuses accepts h = accepts refl h

    after_decision-Accepted :
        (action ns dep container image : String) (next : H d Response) (dec : Result Decision)
        (z : d.authz.State)
        → asked id req.route ≡ some (question id action ns dep)
        → (d.authz.authorize (question id action ns dep) s.authz).0 ≡ dec
        → ((gate : Decided d req s true)
            → gate.id ≡ id
            → (next (record s { authz = z })).0.status ≡ 202
            → Accepted d view lawful req s (next (record s { authz = z })))
        → let m = after_decision d req.ulid id action ns dep container image next dec in
          (m (record s { authz = z })).0.status ≡ 202
          → Accepted d view lawful req s (m (record s { authz = z }))
    unfolding after_decision ◌>>=◌ on_world
    after_decision-Accepted action ns dep container image next (err e) z asks answer accepts h =
        absurd (omega arith)
    after_decision-Accepted action ns dep container image next (ok dec) z asks answer accepts h =
        by_allowed dec.allowed refl h
      where
        denial : H d Response
        denial = do
          on_world d (record_denied d req.ulid id action ns dep container image dec.reason)
          pure (write_error 403 "FORBIDDEN" "not allowed")

        by_allowed :
            (b : Bool)
            → dec.allowed ≡ b
            → ((if b then next else denial) (record s { authz = z })).0.status ≡ 202
            → Accepted d view lawful req s ((if b then next else denial) (record s { authz = z }))
        by_allowed true e k =
            accepts
              (record {
                id = id;
                verified = v;
                question = question id action ns dep;
                asks = asks;
                decision = dec;
                answer = answer;
                allowed_is = e;
              })
              refl k
        by_allowed false e k = absurd (omega arith)

    authorize-Accepted :
        (action ns dep container image : String) (next : H d Response)
        → asked id req.route ≡ some (question id action ns dep)
        → ((z : d.authz.State) (gate : Decided d req s true)
            → gate.id ≡ id
            → (next (record s { authz = z })).0.status ≡ 202
            → Accepted d view lawful req s (next (record s { authz = z })))
        → let m = authorize d req.ulid id action ns dep container image next in
          (m s).0.status ≡ 202 → Accepted d view lawful req s (m s)
    unfolding authorize ◌>>=◌ on_authz
    authorize-Accepted action ns dep container image next asks accepts h =
        after_decision-Accepted action ns dep container image next
          (d.authz.authorize (question id action ns dep) s.authz).0 _ asks refl (accepts _) h

    handle-Accepted :
        (route : Route)
        → req.route ≡ route
        → (handle d req.ulid id route s).0.status ≡ 202
        → Accepted d view lawful req s (handle d req.ulid id route s)
    unfolding handle handle_restart handle_rollout handle_get_operation ◌>>=◌ on_world
    handle-Accepted healthz e h = absurd (omega arith)
    handle-Accepted readyz e h = absurd (omega arith)
    handle-Accepted (gets_operation op_id) e h =
        absurd (operation_response_refuses (get d.store d.platform d.config op_id s.world).0 h)
    handle-Accepted (restarts (err x)) e h = absurd (omega arith)
    handle-Accepted (restarts (ok b)) e h =
        past (b.namespace == "" || b.deployment == "") _ _ s (λ k. omega arith)
          (λ full.
            authorize-Accepted action_restart b.namespace b.deployment "" ""
              (run_restart d req.ulid id b) (rw e (rw full refl))
              (λ z. run_restart-Accepted d view lawful req s id v b z e))
          h
    handle-Accepted (rolls_out (err x)) e h = absurd (omega arith)
    handle-Accepted (rolls_out (ok b)) e h =
        past (b.namespace == "" || (b.deployment == "" || b.image == "")) _ _ s (λ k. omega arith)
          (λ full.
            authorize-Accepted action_rollout b.namespace b.deployment b.container b.image
              (run_rollout d req.ulid id b) (rw e (rw full refl))
              (λ z. run_rollout-Accepted d view lawful req s id v b z e))
          h

  module _ (req : HttpRequest) (s : Server d) where
    with_identity-Accepted :
        (r : Result GitHubIdentity)
        → has_prefix req.authorization "Bearer " ≡ true
        → d.verify (trim_prefix req.authorization "Bearer ") ≡ r
        → (with_identity d req.ulid req.route r s).0.status ≡ 202
        → Accepted d view lawful req s (with_identity d req.ulid req.route r s)
    unfolding with_identity ◌>>=◌
    with_identity-Accepted (err e) bearer token h = absurd (omega arith)
    with_identity-Accepted (ok id) bearer token h =
        handle-Accepted req s id (record { bearer = bearer; token = token }) req.route refl h

    authenticate-Accepted :
        (b : Bool)
        → has_prefix req.authorization "Bearer " ≡ b
        → let m =
            if b
            then with_identity d req.ulid req.route
                (d.verify (trim_prefix req.authorization "Bearer "))
            else pure (write_error 401 "UNAUTHENTICATED" "missing bearer token") in
          (m s).0.status ≡ 202 → Accepted d view lawful req s (m s)
    unfolding ◌>>=◌
    authenticate-Accepted true bearer h = with_identity-Accepted _ bearer refl h
    authenticate-Accepted false bearer h = absurd (omega arith)

  routed-Accepted :
      (req : HttpRequest) (s : Server d) (route : Route)
      → (routed d req route s).0.status ≡ 202
      → Accepted d view lawful req s (routed d req route s)
  unfolding routed handle_readyz authenticate ◌>>=◌ on_world
  routed-Accepted req s healthz h = absurd (omega arith)
  routed-Accepted req s readyz h = absurd (store_readiness_refuses d _ _ h)
  routed-Accepted req s (restarts body) h = authenticate-Accepted req s _ refl h
  routed-Accepted req s (rolls_out body) h = authenticate-Accepted req s _ refl h
  routed-Accepted req s (gets_operation op_id) h = authenticate-Accepted req s _ refl h

  -- The server answers 202 to a request of any route only if the bearer token verifies as an identity and
  -- the authorizer allows this identity the action and the target of the body; and then, over a store that
  -- keeps its promises, the answer names the new operation, which is stored as running, with the fields of
  -- this identity and target and the time of the request, the cluster has taken its patch, and it has one
  -- more watcher.
  pub serve-Accepted :
      (req : HttpRequest) (s : Server d)
      → (serve d req s).0.status ≡ 202
      → Accepted d view lawful req s (serve d req s)
  unfolding serve
  serve-Accepted req s h = routed-Accepted req s req.route h
