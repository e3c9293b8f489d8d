-- ===== src/Manager/Steps/Reconciling.antt =====
-- The sweeper and the lazy `Get` take only such steps.
use deploy_gateway.Base.{ℕ, String, Bool, List, [], ◌∷◌, Result, ok, err}
use deploy_gateway.Store.{Operation}
use deploy_gateway.Store.Api.{Store, View, IsLawful}
use deploy_gateway.Kube.{Deployment}
use deploy_gateway.Kube.Rollout.{RolloutState, progressing, complete, failed}
use deploy_gateway.Manager.Platform.{Platform}
use deploy_gateway.Manager.World.{Config, M}
use deploy_gateway.Manager.Reconcile.{
  settle_stale, resolve_found, resolve_running, resolve_all, sweep_listed, reconcile_sweep,
  get_found, get,
}
use deploy_gateway.Manager.Steps.Methods.{Safe, safe_rules}

module _ (S : Store) (P : Platform) (c : Config) (view : View S) (lawful : IsLawful S view) where
  abbrev Safely : {A : Type 0} → M S P A → Type 0
  Safely = Safe S P c view lawful

  settle_stale-Safe :
      (op : Operation) (s : RolloutState) (reason : String)
      → Safely (settle_stale S P c op s reason)
  unfolding settle_stale
  settle_stale-Safe op complete reason = search safe_rules
  settle_stale-Safe op failed reason = search safe_rules
  settle_stale-Safe op progressing reason = search safe_rules

  resolve_found-Safe :
      (op : Operation) (found : Result Deployment) (done : Bool)
      → Safely (resolve_found S P c op found done)
  unfolding resolve_found
  resolve_found-Safe op (ok dep) done = search settle_stale-Safe
  resolve_found-Safe op (err e) done = search safe_rules

  pub resolve_running-Safe : (op : Operation) → Safely (resolve_running S P c op)
  unfolding resolve_running
  resolve_running-Safe op = search (safe_rules, resolve_found-Safe)

  pub resolve_all-Safe : (ops : List Operation) → Safely (resolve_all S P c ops)
  unfolding resolve_all
  resolve_all-Safe [] = search safe_rules
  resolve_all-Safe (op ∷ ops) =
      let ih = resolve_all-Safe ops in search (safe_rules, resolve_running-Safe)

  sweep_listed-Safe : (listed : Result (List Operation)) → Safely (sweep_listed S P c listed)
  unfolding sweep_listed
  sweep_listed-Safe (ok ops) = resolve_all-Safe ops
  sweep_listed-Safe (err e) = search safe_rules

  -- A sweep takes only such steps.
  pub reconcile_sweep-Safe : Safely (reconcile_sweep S P c)
  unfolding reconcile_sweep
  reconcile_sweep-Safe = search (safe_rules, sweep_listed-Safe)

  get_found-Safe :
      (op_id : String) (found : Result Operation) (t : ℕ) → Safely (get_found S P c op_id found t)
  unfolding get_found
  get_found-Safe op_id (ok op) t = search (safe_rules, resolve_running-Safe)
  get_found-Safe op_id (err e) t = search safe_rules

  -- So does a read of an operation.
  pub get-Safe : (op_id : String) → Safely (get S P c op_id)
  unfolding get
  get-Safe op_id = search (safe_rules, get_found-Safe)
