-- ===== src/Kube/Rollout.antt =====
-- internal/kube/rollout.go: when a rollout is complete, failed or still progressing.
pub mod Laws
use deploy_gateway.Base.{
  ℕ, suc, ◌+◌, ◌/◌, ◌%◌, String, ◌<>◌, ◌==◌, Bool, true, false, ◌&&◌, Option, none, some, List, [],
  ◌∷◌, leb, eqb, if◌then◌else◌,
}
use deploy_gateway.Base.Text.{show}
use deploy_gateway.Kube.{Condition, Deployment}

pub data RolloutState : Type 0 where
  progressing complete failed : RolloutState

-- `String`
unfoldable pub state_text : RolloutState → String
state_text complete = "complete"
state_text failed = "failed"
state_text progressing = "progressing"

pub record RolloutEvaluation : Type 0 where
  pub state : RolloutState
  pub reason : String

unfoldable pub get_condition : List Condition → String → Option Condition
get_condition [] t = none
get_condition (c ∷ cs) t = if c.kind == t then some c else get_condition cs t

abbrev exceeded : Option Condition → Bool
exceeded none = false
exceeded (some c) = c.status == "False" && c.reason == "ProgressDeadlineExceeded"

-- `*dep.Spec.Replicas`, or 1 if it is not set
abbrev pub desired : Option ℕ → ℕ
desired none = 1
desired (some n) = n

-- The controller has seen the current generation.
abbrev pub is_observed : Deployment → Bool
is_observed dep = leb dep.generation dep.observed_generation

abbrev all_new : Deployment → Bool
all_new dep =
    let n = desired dep.spec_replicas in
    eqb dep.updated_replicas n
    && eqb dep.replicas n
    && eqb dep.ready_replicas n
    && eqb dep.available_replicas n

progress_reason : Deployment → String
unfolding show
progress_reason dep =
    "observedGeneration="
    <> show dep.observed_generation
    <> " generation="
    <> show dep.generation
    <> " replicas="
    <> show dep.replicas
    <> " updated="
    <> show dep.updated_replicas
    <> " ready="
    <> show dep.ready_replicas
    <> " available="
    <> show dep.available_replicas

unfoldable pub evaluate_rollout : Deployment → RolloutEvaluation
unfolding get_condition progress_reason
evaluate_rollout dep =
    if exceeded (get_condition dep.conditions "Progressing") && is_observed dep
    then record { state = failed; reason = "progress deadline exceeded" }
    else if is_observed dep && all_new dep
    then record { state = complete; reason = "all replicas are new, ready and available" }
    else record { state = progressing; reason = progress_reason dep }
