-- ===== src/Manager/Reconcile/Sweeps.antt =====
-- A sweep ends every operation that has been running for too long.
use deploy_gateway.Base.{
  ◌-◌, ◌/◌, ◌<◌, ◌≡◌, refl, ◌∙◌, inl, inr, Any, true, false, String, none, some, List, [], ◌∷◌,
  Result, ok, err, GoError, is_canceled,
}
use deploy_gateway.Base.StateMonad.{gets, ◌>>=◌}
use deploy_gateway.Store.{second, Operation, is_running}
use deploy_gateway.Store.Api.{Store, View, IsLawful, IsReliable}
use deploy_gateway.Kube.{Deployment}
use deploy_gateway.Kube.Rollout.{RolloutState, progressing, complete, failed}
use deploy_gateway.Manager.Platform.{Platform}
use deploy_gateway.Manager.World.{Config, World, M, on_store, on_platform, now}
use deploy_gateway.Manager.Steps.Reconciling.{resolve_running-Safe, resolve_all-Safe}
use deploy_gateway.Manager.Watch.Settles
use deploy_gateway.Manager.Watch.Settles.{
  StoredOp, EndedOp, complete_operation-Finishes, fail_operation-Finishes,
  timeout_operation-Finishes, Safe-EndedOp, Safe-StoredOp,
}
use deploy_gateway.Manager.Reconcile.{
  stale_after, settle_stale, resolve_found, resolve_running, resolve_all, sweep_listed,
  reconcile_sweep,
}

-- The sweeper's context is not done, and no read of a deployment says that it is.
pub record IsLive (P : Platform) : Type 0 where
  pub not_done :
      (ns name : String) (e : P.State) → P.caller_done (P.get_deployment ns name e).1 ≡ false
  pub not_canceled :
      (ns name : String) (e : P.State) {x : GoError}
      → (P.get_deployment ns name e).0 ≡ err x
      → is_canceled x ≡ false

module _ (S : Store) (P : Platform) (c : Config) (view : View S) (lawful : IsLawful S view)
    (reliable : IsReliable S view) (live : IsLive P) (op : Operation) where
  abbrev Finished : {A : Type 0} → M S P A → Type 0
  Finished = Settles.Finishes S P c view lawful reliable op

  settle_stale-Finishes :
      (s : RolloutState) (reason : String) → Finished (settle_stale S P c op s reason)
  unfolding settle_stale
  settle_stale-Finishes complete reason =
      complete_operation-Finishes S P c view lawful reliable op none
  settle_stale-Finishes failed reason =
      fail_operation-Finishes S P c view lawful reliable op none _ _
  settle_stale-Finishes progressing reason =
      timeout_operation-Finishes S P c view lawful reliable op none _

  resolve_found-Finishes :
      (found : Result Deployment) (e : P.State)
      → (P.get_deployment op.namespace op.deployment e).0 ≡ found
      → Finished (resolve_found S P c op found false)
  unfolding resolve_found
  resolve_found-Finishes (ok dep) e h = settle_stale-Finishes _ _
  resolve_found-Finishes (err x) e h =
      rw (live.not_canceled op.namespace op.deployment e h)
        (timeout_operation-Finishes S P c view lawful reliable op none _)

  resolve_running-Finishes : Finished (resolve_running S P c op)
  unfolding resolve_running on_platform gets ◌>>=◌
  resolve_running-Finishes = record {
    at = λ w s.
        rw (live.not_done op.namespace op.deployment w.platform)
          ((resolve_found-Finishes _ w.platform refl).at _ (record { op = s.op; found = s.found }));
  }

  -- The operations of the list are resolved one after the other, this one among them.
  resolve_all-ends :
      (ops : List Operation) (w : World S P)
      → StoredOp S P c view lawful reliable op w
      → Any (λ x. x ≡ op) ops
      → EndedOp S P c view lawful reliable op (resolve_all S P c ops w).1
  unfolding resolve_all ◌>>=◌
  resolve_all-ends [] w s a = elim a [ ]
  resolve_all-ends (x ∷ ops) w s (inl e) =
      Safe-EndedOp S P c view lawful reliable op (resolve_all-Safe S P c view lawful ops) _
        (rw e (resolve_running-Finishes.at w s))
  resolve_all-ends (x ∷ ops) w s (inr a) =
      resolve_all-ends ops _
        (Safe-StoredOp S P c view lawful reliable op (resolve_running-Safe S P c view lawful x) w s)
        a

  -- One sweep ends the operation, if it was requested in a second before that of two hours ago.
  pub reconcile_sweep_ends :
      (w : World S P)
      → view w.store op.operation_id ≡ some op
      → is_running op.status ≡ true
      → op.requested_at / second < (P.clock w.platform - stale_after) / second
      → EndedOp S P c view lawful reliable op (reconcile_sweep S P c w).1
  unfolding reconcile_sweep sweep_listed now on_store ◌>>=◌
  reconcile_sweep_ends w found running old =
      let t = P.clock w.platform - stale_after in
      let (ops, listed, here) =
        reliable.list_overdue t w.store op.operation_id op found running old in
      rw listed (
        resolve_all-ends ops _
          (record { op = op; found = lawful.view-list t w.store op.operation_id ∙ found }) here)
