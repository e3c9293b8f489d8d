-- ===== src/Manager/Watch/Resolves.antt =====
-- A watcher that ends leaves its operation ended in the store, by its own write or another's.
use deploy_gateway.Base.{
  ℕ, zero, suc, ◌+◌, ◌*◌, ◌≤◌, ◌≡◌, true, Bool, String, Option, List, Result, ok, err, [], ◌∷◌,
}
use deploy_gateway.Store.{Operation, second}
use deploy_gateway.Store.Api.{Store, View, IsLawful, IsReliable}
use deploy_gateway.Kube.{Deployment, WatchObject, deployment_object, other_object}
use deploy_gateway.Kube.Rollout.{RolloutState, progressing, complete, failed}
use deploy_gateway.Manager.Platform.{Platform, IsTimely}
use deploy_gateway.Manager.World.{Config, World, M}
use deploy_gateway.Manager.Steps.Methods.{on_platform-Safe, Safe-gets}
use deploy_gateway.Manager.Steps.Watching.{
  settle-Safe, eval_once-Safe, drain-Safe, sleep_ctx-Safe, ctx_done-Safe,
}
use deploy_gateway.Manager.Watch.{
  settle, eval_found, eval_once, drain, reconnect, after_watch, watch_round, watch_loop,
  watch_rollout, deadline_of, grace,
}
use deploy_gateway.Manager.Watch.Loop.{watch_rollout_ends}
use deploy_gateway.Manager.Watch.Settles
use deploy_gateway.Manager.Watch.Settles.{
  StoredOp, EndedOp, complete_operation-Finishes, fail_operation-Finishes,
  timeout_operation-Finishes, Settles-false, Settles-write, Settles-bind, Settles-or, Settles-if,
}

-- The store keeps its promises and is reachable; `op` is the operation that the watcher follows.
module _ (S : Store) (P : Platform) (c : Config) (view : View S) (lawful : IsLawful S view)
    (reliable : IsReliable S view) (op : Operation) where
  abbrev Settled : M S P Bool → Type 0
  Settled = Settles.Settles S P c view lawful reliable op

  settle-Settles :
      (msg : Option ℕ) (s : RolloutState) (reason : String) → Settled (settle S P c op msg s reason)
  unfolding settle
  settle-Settles msg complete reason = search (
    Settles-write S P c view lawful reliable op,
    complete_operation-Finishes S P c view lawful reliable op,
  )
  settle-Settles msg failed reason = search (
    Settles-write S P c view lawful reliable op,
    fail_operation-Finishes S P c view lawful reliable op,
  )
  settle-Settles msg progressing reason = Settles-false S P c view lawful reliable op

  drain-Settles : (msg : Option ℕ) (events : List WatchObject) → Settled (drain S P c op msg events)
  unfolding drain
  drain-Settles msg [] = Settles-false S P c view lawful reliable op
  drain-Settles msg (other_object ∷ events) = drain-Settles msg events
  drain-Settles msg (deployment_object dep ∷ events) =
      Settles-or S P c view lawful reliable op _ _ (settle-Safe S P c view lawful op msg _ _)
        (settle-Settles msg _ _) (drain-Settles msg events)

  eval_found-Settles :
      (msg : Option ℕ) (found : Result Deployment) → Settled (eval_found S P c op msg found)
  unfolding eval_found
  eval_found-Settles msg (ok dep) = settle-Settles msg _ _
  eval_found-Settles msg (err e) = Settles-false S P c view lawful reliable op

  eval_once-Settles : (msg : Option ℕ) → Settled (eval_once S P c op msg)
  unfolding eval_once
  eval_once-Settles msg =
      Settles-bind S P c view lawful reliable op _ _ (on_platform-Safe S P c view lawful _)
        (eval_found-Settles msg)

  module _ (again : ℕ → M S P Bool) (again-Settles : (backoff : ℕ) → Settled (again backoff))
      (msg : Option ℕ) (limit backoff : ℕ) where
    reconnect-Settles :
        (message : String) → Settled (reconnect S P c again op msg limit backoff message)
    unfolding reconnect
    reconnect-Settles message =
        Settles-bind S P c view lawful reliable op _ _
          (sleep_ctx-Safe S P c view lawful limit backoff)
          λ slept. Settles-if S P c view lawful reliable op slept _ _ (again-Settles _) (
            Settles-write S P c view lawful reliable op _
              (timeout_operation-Finishes S P c view lawful reliable op msg message))

    after_watch-Settles :
        (watched : Result (List WatchObject))
        → Settled (after_watch S P c again op msg limit backoff watched)
    unfolding after_watch
    after_watch-Settles (ok events) =
        Settles-or S P c view lawful reliable op _ _ (drain-Safe S P c view lawful op msg events)
          (drain-Settles msg events) (reconnect-Settles _)
    after_watch-Settles (err e) = reconnect-Settles _

    watch_round-Settles : Settled (watch_round S P c again op msg limit backoff)
    unfolding watch_round
    watch_round-Settles =
        Settles-bind S P c view lawful reliable op _ _ (ctx_done-Safe S P c view lawful limit)
          λ late.
            Settles-if S P c view lawful reliable op late _ _
              (Settles-write S P c view lawful reliable op _
                (timeout_operation-Finishes S P c view lawful reliable op msg _))
              (Settles-or S P c view lawful reliable op _ _
                (eval_once-Safe S P c view lawful op msg) (eval_once-Settles msg)
                (Settles-bind S P c view lawful reliable op _ _
                  (on_platform-Safe S P c view lawful _) after_watch-Settles))

  watch_loop-Settles :
      (fuel : ℕ) (msg : Option ℕ) (limit backoff : ℕ)
      → Settled (watch_loop S P c fuel op msg limit backoff)
  unfolding watch_loop
  watch_loop-Settles zero msg limit backoff = Settles-false S P c view lawful reliable op
  watch_loop-Settles (suc fuel) msg limit backoff =
      watch_round-Settles _ (watch_loop-Settles fuel msg limit) msg limit backoff

  pub watch_rollout-Settles :
      (fuel : ℕ) (msg : Option ℕ) → Settled (watch_rollout S P c fuel op msg)
  unfolding watch_rollout
  watch_rollout-Settles fuel msg =
      Settles-bind S P c view lawful reliable op _ _ (on_platform-Safe S P c view lawful _) λ found.
        Settles-bind S P c view lawful reliable op _ _ (Safe-gets S P c view lawful _)
          λ start. watch_loop-Settles fuel msg _ _

  -- No operation is left running: over a store that keeps its promises and is always reachable, and a
  -- clock that never runs back, a watcher of a stored operation that is given a round more than there
  -- are seconds up to its deadline ends, and then that operation has ended in the store.
  pub watch_rollout_resolves :
      IsTimely P
      → (fuel : ℕ) (msg : Option ℕ) (w : World S P)
      → deadline_of S P c (P.get_deployment op.namespace op.deployment w.platform).0 + grace
        ≤ fuel * second
      → StoredOp S P c view lawful reliable op w
      → ((watch_rollout S P c (suc fuel) op msg w).0 ≡ true)
        × EndedOp S P c view lawful reliable op (watch_rollout S P c (suc fuel) op msg w).1
  watch_rollout_resolves timely fuel msg w room s =
      let ends = watch_rollout_ends S P c timely fuel op msg w room in
      (ends, (watch_rollout-Settles (suc fuel) msg).at w s ends)
