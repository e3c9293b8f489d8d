-- ===== src/Manager/Steps/Watching.antt =====
-- The watcher of a rollout takes only such steps.
use deploy_gateway.Base.{ℕ, zero, suc, String, Bool, Option, List, [], ◌∷◌, Result, ok, err}
use deploy_gateway.Store.{Operation}
use deploy_gateway.Store.Api.{Store, View, IsLawful}
use deploy_gateway.Kube.{Deployment, WatchObject, deployment_object, other_object}
use deploy_gateway.Kube.Rollout.{RolloutState, progressing, complete, failed}
use deploy_gateway.Manager.Platform.{Platform}
use deploy_gateway.Manager.World.{Config, M}
use deploy_gateway.Manager.Watch.{
  settle, eval_found, eval_once, drain, reconnect, after_watch, watch_round, watch_loop,
  watch_rollout, sleep_ctx, ctx_done,
}
use deploy_gateway.Manager.Steps.Methods.{Safe, safe_rules}

module _ (S : Store) (P : Platform) (c : Config) (view : View S) (lawful : IsLawful S view) where
  abbrev pub Safely : {A : Type 0} → M S P A → Type 0
  Safely = Safe S P c view lawful

  pub settle-Safe :
      (op : Operation) (msg : Option ℕ) (s : RolloutState) (reason : String)
      → Safely (settle S P c op msg s reason)
  unfolding settle
  settle-Safe op msg complete reason = search safe_rules
  settle-Safe op msg failed reason = search safe_rules
  settle-Safe op msg progressing reason = search safe_rules

  pub drain-Safe :
      (op : Operation) (msg : Option ℕ) (events : List WatchObject)
      → Safely (drain S P c op msg events)
  unfolding drain
  drain-Safe op msg [] = search safe_rules
  drain-Safe op msg (other_object ∷ events) = drain-Safe op msg events
  drain-Safe op msg (deployment_object dep ∷ events) =
      let ih = drain-Safe op msg events in search (safe_rules, settle-Safe)

  eval_found-Safe :
      (op : Operation) (msg : Option ℕ) (found : Result Deployment)
      → Safely (eval_found S P c op msg found)
  unfolding eval_found
  eval_found-Safe op msg (ok dep) = search settle-Safe
  eval_found-Safe op msg (err e) = search safe_rules

  pub eval_once-Safe : (op : Operation) (msg : Option ℕ) → Safely (eval_once S P c op msg)
  unfolding eval_once
  eval_once-Safe op msg = search (safe_rules, eval_found-Safe)

  pub sleep_ctx-Safe : (limit d : ℕ) → Safely (sleep_ctx S P c limit d)
  unfolding sleep_ctx
  sleep_ctx-Safe limit d = search safe_rules

  pub ctx_done-Safe : (limit : ℕ) → Safely (ctx_done S P c limit)
  unfolding ctx_done
  ctx_done-Safe limit = search safe_rules

  module _ (again : ℕ → M S P Bool) (again-Safe : (backoff : ℕ) → Safely (again backoff))
      (op : Operation) (msg : Option ℕ) (limit backoff : ℕ) where
    reconnect-Safe :
        (message : String) → Safely (reconnect S P c again op msg limit backoff message)
    unfolding reconnect
    reconnect-Safe message = search (safe_rules, sleep_ctx-Safe, again-Safe)

    after_watch-Safe :
        (watched : Result (List WatchObject))
        → Safely (after_watch S P c again op msg limit backoff watched)
    unfolding after_watch
    after_watch-Safe (ok events) = search (safe_rules, drain-Safe, reconnect-Safe)
    after_watch-Safe (err e) = search reconnect-Safe

    watch_round-Safe : Safely (watch_round S P c again op msg limit backoff)
    unfolding watch_round
    watch_round-Safe = search (safe_rules, ctx_done-Safe, eval_once-Safe, after_watch-Safe) depth 9

  watch_loop-Safe :
      (fuel : ℕ) (op : Operation) (msg : Option ℕ) (limit backoff : ℕ)
      → Safely (watch_loop S P c fuel op msg limit backoff)
  unfolding watch_loop
  watch_loop-Safe zero op msg limit backoff = search safe_rules
  watch_loop-Safe (suc fuel) op msg limit backoff =
      watch_round-Safe _ (watch_loop-Safe fuel op msg limit) op msg limit backoff

  -- A watcher, for any number of rounds, takes only such steps.
  pub watch_rollout-Safe :
      (fuel : ℕ) (op : Operation) (msg : Option ℕ) → Safely (watch_rollout S P c fuel op msg)
  unfolding watch_rollout
  watch_rollout-Safe fuel op msg = search (safe_rules, watch_loop-Safe)
