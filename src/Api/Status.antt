-- ===== src/Api/Status.antt =====
-- Which answers of the handlers have the status 202.
use deploy_gateway.Base.{String, ◌≡◌, refl, Option, none, some, Result, ok, err, GoError, arith}
use deploy_gateway.Base.StateMonad.{◌>>=◌}
use deploy_gateway.Store.{Operation}
use deploy_gateway.Manager.Start.{Outcome, returns, panics}
use deploy_gateway.Api.{plain_ok, started_body, Response, Deps, Server}
use deploy_gateway.Api.Responses.{
  write_error, restart_response, rollout_response, operation_response,
}
use deploy_gateway.Api.Handlers.{on_authz, authz_readiness, store_readiness}

pub restart_response_accepts :
    (o : Outcome)
    → (restart_response o).status ≡ 202
    → (op_id : String) × (o ≡ returns op_id none) × ((restart_response o).body ≡ started_body op_id)
unfolding restart_response
restart_response_accepts panics h = absurd (omega arith)
restart_response_accepts (returns op_id none) h = (op_id, refl, refl)
restart_response_accepts (returns op_id (some e)) h = absurd (ground arith)

pub rollout_response_accepts :
    (o : Outcome)
    → (rollout_response o).status ≡ 202
    → (op_id : String) × (o ≡ returns op_id none) × ((rollout_response o).body ≡ started_body op_id)
unfolding rollout_response restart_response
rollout_response_accepts panics h = absurd (omega arith)
rollout_response_accepts (returns op_id none) h = (op_id, refl, refl)
rollout_response_accepts (returns op_id (some e)) h = absurd (ground arith)

pub operation_response_refuses : (r : Result Operation) → (operation_response r).status ≡ 202 → ⊥
unfolding operation_response
operation_response_refuses (err e) h = ground arith
operation_response_refuses (ok op) h = omega arith

module _ (d : Deps) where
  readiness_refuses :
      (ready : Option (d.authz.State → Option GoError × d.authz.State)) (s : Server d)
      → (authz_readiness d ready s).0.status ≡ 202
      → ⊥
  unfolding authz_readiness ◌>>=◌ on_authz
  readiness_refuses none s h = omega arith
  readiness_refuses (some ready) s h = by_answer (ready s.authz).0 h
    where
      by_answer :
          (e : Option GoError)
          → (elim e as (λ _. Response) [
            | some e ↦ write_error 503 "AUTHZ_UNAVAILABLE" "authorization service not reachable"
            | none ↦ record { status = 200; body = plain_ok }
          ]).status
            ≡ 202
          → ⊥
      by_answer none k = omega arith
      by_answer (some e) k = omega arith

  pub store_readiness_refuses :
      (failure : Option GoError) (s : Server d) → (store_readiness d failure s).0.status ≡ 202 → ⊥
  unfolding store_readiness ◌>>=◌
  store_readiness_refuses none s h = readiness_refuses d.ready s h
  store_readiness_refuses (some e) s h = omega arith
