-- ===== src/Kube/Client.antt =====
-- internal/kube/client.go: the client behind the interface `Kube`. The typed client of client-go and its
-- `retry.RetryOnConflict` are a parameter.
pub mod Laws
use deploy_gateway.Base.{
  ℕ, String, ◌<>◌, ◌==◌, ◌||◌, Bool, Option, some, List, GoError, Result, ok, err, wrap, new_error,
  if◌then◌else◌,
}
use deploy_gateway.Store.{Time}
use deploy_gateway.Kube.{Deployment, WatchObject}
use deploy_gateway.Kube.Stamp.{restart_stamp}
use deploy_gateway.Kube.Patch.{restart_patch, rollout_patch}

-- With client-go, the table of `strconv.IsPrint`, for `%q`.
pub record Deployments : Type 1 where
  pub is_print : ℕ → Bool
  pub State : Type 0
  -- `Patch` with `types.StrategicMergePatchType`: the namespace, the name and the body
  pub patch : String → String → String → State → Option GoError × State
  pub get : String → String → State → Result Deployment × State
  -- `Watch`, with a field selector
  pub watch : String → String → State → Result (List WatchObject) × State
  pub clock : State → Time
  -- `retry.RetryOnConflict` with `retry.DefaultBackoff`
  pub retry_on_conflict : (State → Option GoError × State) → State → Option GoError × State
  pub is_conflict : GoError → Bool

-- `NewFromConfig`, over client-go's `NewForConfig`
unfoldable pub new_from_config {ℓ κ} : {C : Type ℓ} {K : Type κ} → (C → Result K) → C → Result K
new_from_config new_for_config cfg = elim (new_for_config cfg) [ err e ↦ err e | ok k ↦ ok k ]

-- `NewInCluster`, over client-go's `InClusterConfig` and `NewForConfig`
unfoldable pub new_in_cluster {ℓ κ} :
    {C : Type ℓ} {K : Type κ} → Result C → (C → Result K) → Result K
unfolding new_from_config
new_in_cluster (err e) new_for_config = err (wrap "in-cluster config" e)
new_in_cluster (ok cfg) new_for_config = new_from_config new_for_config cfg

module _ (D : Deployments) where
  -- The function that `RestartDeployment` retries: each try has a stamp of its own.
  unfoldable pub try_restart : String → String → D.State → Option GoError × D.State
  unfolding restart_stamp restart_patch
  try_restart namespace name s =
      D.patch namespace name (restart_patch D.is_print (restart_stamp (D.clock s))) s

  unfoldable pub restart_deployment : String → String → D.State → Option GoError × D.State
  unfolding try_restart
  restart_deployment namespace name s = D.retry_on_conflict (try_restart namespace name) s

  -- The function that `RolloutDeployment` retries.
  unfoldable pub try_rollout :
      String → String → String → String → D.State → Option GoError × D.State
  unfolding restart_stamp rollout_patch
  try_rollout namespace name container image s =
      D.patch namespace name (rollout_patch D.is_print (restart_stamp (D.clock s)) container image)
        s

  unfoldable pub rollout_deployment :
      String → String → String → String → D.State → Option GoError × D.State
  unfolding try_rollout
  rollout_deployment namespace name container image s =
      if container == "" || image == ""
      then (some (new_error "rollout requires container and image"), s)
      else D.retry_on_conflict (try_rollout namespace name container image) s

  unfoldable pub get_deployment : String → String → D.State → Result Deployment × D.State
  get_deployment namespace name s = D.get namespace name s

  unfoldable pub watch_deployment : String → String → D.State → Result (List WatchObject) × D.State
  watch_deployment namespace name s = D.watch namespace ("metadata.name=" <> name) s
