-- ===== src/Manager/Watch.antt =====
-- internal/operation/manager.go: the goroutine that follows a rollout to its end. The loop takes fuel.
pub mod Ends
pub mod Loop
pub mod Settles
pub mod Resolves
use deploy_gateway.Base.{
  ℕ, zero, suc, ◌+◌, ◌*◌, ◌-◌, min, Bool, true, false, String, Option, none, some, List, [], ◌∷◌,
  Result, ok, err, ltb, leb, if◌then◌else◌,
}
use deploy_gateway.Base.StateMonad.{pure, gets, ◌>>=◌, ◌>>◌}
use deploy_gateway.Store.{Time, second, Operation}
use deploy_gateway.Store.Api.{Store}
use deploy_gateway.Kube.{Deployment, WatchObject, deployment_object, other_object}
use deploy_gateway.Kube.Rollout.{RolloutState, progressing, complete, failed, evaluate_rollout}
use deploy_gateway.Manager.Platform.{Platform}
use deploy_gateway.Manager.World.{Config, M, on_platform}
use deploy_gateway.Manager.Resolve.{fail_operation, complete_operation, timeout_operation}

-- `progressDeadline`
unfoldable pub progress_deadline : Config → Deployment → ℕ
progress_deadline c dep = elim dep.progress_deadline_seconds [
  | none ↦ c.default_deadline
  | some n ↦ if ltb 0 n then n * second else c.default_deadline
]

abbrev pub max_backoff : ℕ
max_backoff = 15 * second

abbrev pub grace : ℕ
grace = 120 * second

module _ (S : Store) (P : Platform) (c : Config) where
  -- `ctx.Err() != nil`, for the context that is done at `limit`
  unfoldable pub ctx_done : Time → M S P Bool
  unfolding gets
  ctx_done limit = gets (λ w. leb limit (P.clock w.platform))

  -- `sleepCtx`: false if the context is done first
  pub sleep_ctx_from : Time → ℕ → P.State → Bool × P.State
  sleep_ctx_from limit d e =
      if ltb (P.clock e + d) limit
      then (true, P.elapse d e)
      else (false, P.elapse (limit - P.clock e) e)

  unfoldable pub sleep_ctx : Time → ℕ → M S P Bool
  unfolding sleep_ctx_from
  sleep_ctx limit d = on_platform S P (sleep_ctx_from limit d)

  -- Resolves the operation on a verdict that is final, and says whether it was.
  unfoldable pub settle : Operation → Option ℕ → RolloutState → String → M S P Bool
  settle op msg complete reason = do complete_operation S P c op msg; pure true
  settle op msg failed reason = do fail_operation S P c op msg "ROLLOUT_FAILED" reason; pure true
  settle op msg progressing reason = pure false

  unfoldable pub eval_found : Operation → Option ℕ → Result Deployment → M S P Bool
  unfolding settle
  eval_found op msg (err e) = pure false
  eval_found op msg (ok dep) = let ev = evaluate_rollout dep in settle op msg ev.state ev.reason

  -- `evalOnce`
  unfoldable pub eval_once : Operation → Option ℕ → M S P Bool
  unfolding eval_found
  eval_once op msg = do
    found ← on_platform S P (P.get_deployment op.namespace op.deployment)
    eval_found op msg found

  -- `for event := range w.ResultChan()`: the first final verdict ends it.
  unfoldable pub drain : Operation → Option ℕ → List WatchObject → M S P Bool
  unfolding settle
  drain op msg [] = pure false
  drain op msg (other_object ∷ events) = drain op msg events
  drain op msg (deployment_object dep ∷ events) =
      let rest = drain op msg events in
      let ev = evaluate_rollout dep in
      do done ← settle op msg ev.state ev.reason; if done then pure true else rest

  -- The sleep between two rounds; `next` is the next round, at the backoff that it is given.
  unfoldable pub reconnect :
      (ℕ → M S P Bool) → Operation → Option ℕ → Time → ℕ → String → M S P Bool
  unfolding sleep_ctx
  reconnect next op msg limit backoff message = do
    slept ← sleep_ctx limit backoff
    if slept
        then next (min (2 * backoff) max_backoff)
        else (do timeout_operation S P c op msg message; pure true)

  unfoldable pub after_watch :
      (ℕ → M S P Bool) → Operation → Option ℕ → Time → ℕ → Result (List WatchObject) → M S P Bool
  unfolding reconnect drain
  after_watch next op msg limit backoff (err e) =
      reconnect next op msg limit backoff "watch deadline exceeded"
  after_watch next op msg limit backoff (ok events) = do
    done ← drain op msg events
    if done
        then pure true
        else reconnect next op msg limit backoff "watch deadline exceeded after reconnect"

  -- One round of the loop.
  unfoldable pub watch_round : (ℕ → M S P Bool) → Operation → Option ℕ → Time → ℕ → M S P Bool
  unfolding ctx_done eval_once after_watch
  watch_round next op msg limit backoff = do
    late ← ctx_done limit
    if late
        then (do
          timeout_operation S P c op msg "watch deadline exceeded before rollout resolved"
          pure true)
        else (do
          done ← eval_once op msg
          if done then pure true else (do
            watched ← on_platform S P (P.watch_deployment op.namespace op.deployment)
            after_watch next op msg limit backoff watched))

  -- The loop; false means that the fuel ran out.
  unfoldable pub watch_loop : ℕ → Operation → Option ℕ → Time → ℕ → M S P Bool
  unfolding watch_round
  watch_loop zero op msg limit backoff = pure false
  watch_loop (suc fuel) op msg limit backoff =
      watch_round (watch_loop fuel op msg limit) op msg limit backoff

  unfoldable pub deadline_of : Result Deployment → ℕ
  unfolding progress_deadline
  deadline_of (ok dep) = progress_deadline c dep
  deadline_of (err e) = c.default_deadline

  -- `watchRollout`
  unfoldable pub watch_rollout : ℕ → Operation → Option ℕ → M S P Bool
  unfolding deadline_of watch_loop
  watch_rollout fuel op msg = do
    found ← on_platform S P (P.get_deployment op.namespace op.deployment)
    start ← gets (λ w. P.clock w.platform)
    watch_loop fuel op msg (start + (deadline_of found + grace)) second
