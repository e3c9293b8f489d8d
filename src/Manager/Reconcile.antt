-- ===== src/Manager/Reconcile.antt =====
-- internal/operation/reconcile.go, and `Get` of manager.go: what resolves an operation whose watcher
-- is gone.
pub mod Sweeps
pub mod Sweeper
use deploy_gateway.Base.{
  ℕ, zero, suc, ◌-◌, ◌*◌, Bool, ◌&&◌, ◌||◌, String, ◌<>◌, none, List, [], ◌∷◌, Result, ok, err,
  is_canceled, ltb, if◌then◌else◌,
}
use deploy_gateway.Base.StateMonad.{pure, gets, ◌>>=◌, ◌>>◌}
use deploy_gateway.Store.{Time, second, Operation, is_running}
use deploy_gateway.Store.Api.{Store}
use deploy_gateway.Kube.{Deployment}
use deploy_gateway.Kube.Rollout.{RolloutState, progressing, complete, failed, evaluate_rollout}
use deploy_gateway.Manager.Platform.{Platform}
use deploy_gateway.Manager.World.{Config, M, on_store, on_platform, now}
use deploy_gateway.Manager.Resolve.{fail_operation, complete_operation, timeout_operation}

abbrev pub stale_after : ℕ
stale_after = 7200 * second

abbrev pub sweep_interval : ℕ
sweep_interval = 60 * second

module _ (S : Store) (P : Platform) (c : Config) where
  -- The `switch` on the verdict: past every deadline, progressing means timeout.
  unfoldable pub settle_stale : Operation → RolloutState → String → M S P (Unit {0})
  settle_stale op complete reason = complete_operation S P c op none
  settle_stale op failed reason = fail_operation S P c op none "ROLLOUT_FAILED" reason
  settle_stale op progressing reason =
      timeout_operation S P c op none ("operation stale and rollout still not terminal: " <> reason)

  -- A read that failed because the caller's context is done says nothing about the deployment.
  unfoldable pub resolve_found : Operation → Result Deployment → Bool → M S P (Unit {0})
  unfolding settle_stale
  resolve_found op (err e) caller_done =
      if is_canceled e || caller_done
      then pure tt
      else timeout_operation S P c op none
          ("deployment no longer readable while operation running: " <> e.message)
  resolve_found op (ok dep) caller_done =
      let ev = evaluate_rollout dep in settle_stale op ev.state ev.reason

  -- `resolveRunning`
  unfoldable pub resolve_running : Operation → M S P (Unit {0})
  unfolding resolve_found
  resolve_running op = do
    found ← on_platform S P (P.get_deployment op.namespace op.deployment)
    caller_done ← gets (λ w. P.caller_done w.platform)
    resolve_found op found caller_done

  unfoldable pub resolve_all : List Operation → M S P (Unit {0})
  resolve_all [] = pure tt
  resolve_all (op ∷ ops) = do resolve_running op; resolve_all ops

  unfoldable pub sweep_listed : Result (List Operation) → M S P (Unit {0})
  unfolding resolve_all
  sweep_listed (err e) = pure tt
  sweep_listed (ok ops) = resolve_all ops

  -- `ReconcileSweep`
  unfoldable pub reconcile_sweep : M S P (Unit {0})
  unfolding sweep_listed
  reconcile_sweep = do
    t ← now S P
    listed ← on_store S P (S.list_running_past_deadline (t - stale_after))
    sweep_listed listed

  -- The wait for the next tick.
  unfoldable pub next_tick : M S P (Unit {0})
  next_tick = on_platform S P (λ e. (tt, P.elapse sweep_interval e))

  -- `StartSweeper`, with the number of ticks that come before its context is done
  unfoldable pub start_sweeper : ℕ → M S P (Unit {0})
  unfolding next_tick reconcile_sweep
  start_sweeper zero = pure tt
  start_sweeper (suc ticks) = do next_tick; reconcile_sweep; start_sweeper ticks

  pub refreshed : Operation → Result Operation → Result Operation
  refreshed op (ok op') = ok op'
  refreshed op (err e) = ok op

  abbrev is_stale : Time → Operation → Bool
  is_stale t op = is_running op.status && ltb stale_after (t - op.requested_at)

  unfoldable pub get_found : String → Result Operation → Time → M S P (Result Operation)
  unfolding refreshed
  get_found op_id (err e) t = pure (err e)
  get_found op_id (ok op) t =
      if is_stale t op
      then (do
        resolve_running op
        again ← on_store S P (S.get_operation op_id)
        pure (refreshed op again))
      else pure (ok op)

  -- `Get`
  unfoldable pub get : String → M S P (Result Operation)
  unfolding get_found
  get op_id = do found ← on_store S P (S.get_operation op_id); t ← now S P; get_found op_id found t
