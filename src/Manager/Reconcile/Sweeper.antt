-- ===== src/Manager/Reconcile/Sweeper.antt =====
-- The sweeper leaves no operation running.
use deploy_gateway.Base.{
  ℕ, zero, suc, ◌+◌, ◌-◌, ◌*◌, ◌/◌, ◌<◌, ◌≤◌, ◌==◌, ◌≡◌, eq_iff, refl, ◌∙◌, inl, inr, ◌⊎◌, Bool,
  Bool-cases, true, false, String, some, List, [], ◌∷◌, Result, ok, err, ltb, arith,
}
use deploy_gateway.Base.StateMonad.{◌>>=◌}
use deploy_gateway.Store.{second, Operation, is_running, finish}
use deploy_gateway.Store.Api.{Store, View, IsLawful, IsReliable}
use deploy_gateway.Kube.{Deployment}
use deploy_gateway.Kube.Rollout.{RolloutState, progressing, complete, failed}
use deploy_gateway.Manager.Platform.{Platform, IsTimely}
use deploy_gateway.Manager.World.{Config, World, on_platform}
use deploy_gateway.Manager.Resolve.{complete_operation, fail_operation}
use deploy_gateway.Manager.Steps.{Step, quiet, announced, created, won, lost, Reach, here, next}
use deploy_gateway.Manager.Steps.Invariant.{Reach-final}
use deploy_gateway.Manager.Steps.Methods.{Safe, safe_rules}
use deploy_gateway.Manager.Steps.Reconciling.{reconcile_sweep-Safe}
use deploy_gateway.Manager.Watch.Ends.{
  forward_rules, Forwards, resolve-Forward, timeout_operation-Forward,
}
use deploy_gateway.Manager.Watch.Settles.{Ended, EndedOp, Safe-EndedOp}
use deploy_gateway.Manager.Reconcile.{
  stale_after, sweep_interval, settle_stale, resolve_found, resolve_running, resolve_all,
  sweep_listed, reconcile_sweep, next_tick, start_sweeper,
}
use deploy_gateway.Manager.Reconcile.Sweeps.{IsLive, reconcile_sweep_ends}

module _ (S : Store) (P : Platform) (c : Config) (timely : IsTimely P) where
  settle_stale-Forward :
      (op : Operation) (s : RolloutState) (reason : String)
      → Forwards S P c timely (settle_stale S P c op s reason)
  unfolding settle_stale complete_operation fail_operation
  settle_stale-Forward op complete reason = search (forward_rules, resolve-Forward) depth 7
  settle_stale-Forward op failed reason = search (forward_rules, resolve-Forward) depth 7
  settle_stale-Forward op progressing reason = search (timeout_operation-Forward)

  resolve_found-Forward :
      (op : Operation) (found : Result Deployment) (done : Bool)
      → Forwards S P c timely (resolve_found S P c op found done)
  unfolding resolve_found
  resolve_found-Forward op (ok dep) done = search settle_stale-Forward
  resolve_found-Forward op (err e) done = search (forward_rules, timeout_operation-Forward)

  resolve_running-Forward : (op : Operation) → Forwards S P c timely (resolve_running S P c op)
  unfolding resolve_running
  resolve_running-Forward op = search (forward_rules, resolve_found-Forward)

  resolve_all-Forward : (ops : List Operation) → Forwards S P c timely (resolve_all S P c ops)
  unfolding resolve_all
  resolve_all-Forward [] = search forward_rules
  resolve_all-Forward (op ∷ ops) =
      let ih = resolve_all-Forward ops in search (forward_rules, resolve_running-Forward)

  sweep_listed-Forward :
      (listed : Result (List Operation)) → Forwards S P c timely (sweep_listed S P c listed)
  unfolding sweep_listed
  sweep_listed-Forward (ok ops) = resolve_all-Forward ops
  sweep_listed-Forward (err e) = search forward_rules

  reconcile_sweep-Forward : Forwards S P c timely (reconcile_sweep S P c)
  unfolding reconcile_sweep
  reconcile_sweep-Forward = search (forward_rules, sweep_listed-Forward)

module _ (S : Store) (P : Platform) (c : Config) (view : View S) (j : String) (op : Operation) where
  -- The operation is as it was, or has ended.
  abbrev Kept : World S P → Type 0
  Kept w = (view w.store j ≡ some op) ⊎ Ended S P view j w

  Step-Kept : {w w' : World S P} → Step S P c view w w' → view w.store j ≡ some op → Kept w'
  unfolding finish
  Step-Kept (quiet same notices) h = inl (same j ∙ h)
  Step-Kept (announced o same notices) h = inl (same j ∙ h)
  Step-Kept (created o fresh status changed notices) h = elim (Bool-cases (o.operation_id == j)) [
    | inl e ↦ let same : o.operation_id ≡ j = (eq_iff o.operation_id j).0 e in cc
    | inr e ↦ inl (changed j ∙ rw e h)
  ]
  Step-Kept (won o msg upd status u notices) h = elim (Bool-cases (o.operation_id == j)) [
    | inl e ↦ inr (record {
      op = finish upd u.at u.op;
      found = u.changed j ∙ rw e refl;
      ended = ground (arith, status);
    })
    | inr e ↦ inl (u.changed j ∙ rw e h)
  ]
  Step-Kept (lost id upd at status told made u notices) h = elim (Bool-cases (id == j)) [
    | inl e ↦ inr (record {
      op = finish upd u.at u.op;
      found = u.changed j ∙ rw e refl;
      ended = ground (arith, status);
    })
    | inr e ↦ inl (u.changed j ∙ rw e h)
  ]

  Reach-Kept : {w w' : World S P} → Reach S P c view w w' → view w.store j ≡ some op → Kept w'
  Reach-Kept here h = inl h
  Reach-Kept (next r st) h = elim (Reach-Kept r h) [
    | inl k ↦ Step-Kept st k
    | inr e ↦ inr (record {
      op = e.op;
      found = Reach-final S P c view j e.op (next here st) e.found e.ended;
      ended = e.ended;
    })
  ]

module _ (S : Store) (P : Platform) (c : Config) (view : View S) (lawful : IsLawful S view)
    (reliable : IsReliable S view) (live : IsLive P) (timely : IsTimely P) (op : Operation)
    (running : is_running op.status ≡ true) where
  abbrev Over : World S P → Type 0
  Over = EndedOp S P c view lawful reliable op

  start_sweeper-Safe : (ticks : ℕ) → Safe S P c view lawful (start_sweeper S P c ticks)
  unfolding start_sweeper next_tick
  start_sweeper-Safe zero = search safe_rules
  start_sweeper-Safe (suc ticks) =
      let ih = start_sweeper-Safe ticks in search (safe_rules, reconcile_sweep-Safe)

  -- A sweep of a state in which the operation is as it was.
  sweep-Kept :
      (w : World S P)
      → view w.store op.operation_id ≡ some op
      → Kept S P c view op.operation_id op (reconcile_sweep S P c w).1
  sweep-Kept w found =
      Reach-Kept S P c view op.operation_id op ((reconcile_sweep-Safe S P c view lawful).at w) found

  sweep_clock : (w : World S P) → P.clock w.platform ≤ P.clock (reconcile_sweep S P c w).1.platform
  sweep_clock w = ((reconcile_sweep-Forward S P c timely).at w).le

  -- One round, if those behind it end the operation as long as they find it as it was.
  round_ends :
      (ticks : ℕ) (w : World S P)
      → view w.store op.operation_id ≡ some op
      → ((v : World S P)
          → view v.store op.operation_id ≡ some op
          → P.clock w.platform ≤ P.clock v.platform
          → ltb (op.requested_at / second) ((P.clock w.platform - stale_after) / second) ≡ false
          → Over (start_sweeper S P c ticks v).1)
      → Over (start_sweeper S P c ticks (reconcile_sweep S P c w).1).1
  round_ends ticks w found rest =
      elim (Bool-cases
        (ltb (op.requested_at / second) ((P.clock w.platform - stale_after) / second))) [
          | inl old ↦ Safe-EndedOp S P c view lawful reliable op (start_sweeper-Safe ticks) _ (
              reconcile_sweep_ends S P c view lawful reliable live op w found running
                (ground arith))
          | inr young ↦ elim (sweep-Kept w found) [
            | inl kept ↦ rest _ kept (sweep_clock w) young
            | inr over ↦
                Safe-EndedOp S P c view lawful reliable op (start_sweeper-Safe ticks) _ over
          ]
        ]

  -- Over a store that keeps its promises and is reachable, a clock that never runs back and a
  -- context that stays live, a sweeper that ticks once at least, and so often that as many minutes
  -- from now are two hours and a second past the request of an operation, leaves this operation
  -- ended in the store, if it was stored there under its own id and running, whatever the cluster
  -- answers about the deployment and whatever other operations the sweeps resolve.
  pub start_sweeper_ends :
      (ticks : ℕ) (w : World S P)
      → view w.store op.operation_id ≡ some op
      → op.requested_at + (stale_after + second) ≤ P.clock w.platform + suc ticks * sweep_interval
      → Over (start_sweeper S P c (suc ticks) w).1
  unfolding start_sweeper next_tick on_platform ◌>>=◌
  start_sweeper_ends zero w found late =
      let tick = timely.clock-elapse sweep_interval w.platform in
      round_ends zero (record w { platform = P.elapse sweep_interval w.platform }) found
        (λ v kept later young. absurd (
          let old : op.requested_at / second
              < (P.clock (P.elapse sweep_interval w.platform) - stale_after) / second =
            omega arith in
          ground arith))
  start_sweeper_ends (suc ticks) w found late =
      let tick = timely.clock-elapse sweep_interval w.platform in
      round_ends (suc ticks) (record w { platform = P.elapse sweep_interval w.platform }) found
        (λ v kept later young. start_sweeper_ends ticks v kept (omega arith))
