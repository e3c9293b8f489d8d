-- ===== src/Kube/Rollout/Laws.antt =====
-- What a verdict of `EvaluateRollout` says about the deployment.
use mathlib.Core.Path.{subst}
use deploy_gateway.Base.{
  ℕ, String, ◌≢◌, ◌==◌, Bool, false, List, [], ◌∷◌, if◌then◌else◌, ◌≤◌, ◌<◌, ◌≡◌, refl, ◌↔◌, inl,
  inr, true, Option, none, some, arith, eq_iff, Bool-cases,
}
use deploy_gateway.Kube.{Condition, Deployment}
use deploy_gateway.Kube.Rollout.{
  progressing, complete, failed, get_condition, exceeded, desired, evaluate_rollout,
}

-- The controller has observed the current generation.
abbrev pub Observed : Deployment → Type 0
Observed dep = dep.generation ≤ dep.observed_generation

-- How many pods are wanted: one, if the deployment does not say.
pub data Wants : Option ℕ → ℕ → Type 0 where
  unset : Wants none 1
  set : (n : ℕ) → Wants (some n) n

-- Every pod is of the new template, ready and available, and none is left of an old one.
pub record AllNew (dep : Deployment) : Type 0 where
  pub wanted : ℕ
  pub wants : Wants dep.spec_replicas wanted
  pub updated : dep.updated_replicas ≡ wanted
  pub total : dep.replicas ≡ wanted
  pub ready : dep.ready_replicas ≡ wanted
  pub available : dep.available_replicas ≡ wanted

-- The first condition of a kind.
pub data First (kind : String) (c : Condition) : List Condition → Type 0 where
  here : {cs : List Condition} → c.kind ≡ kind → First kind c (c ∷ cs)
  later :
      {d : Condition} {cs : List Condition}
      → d.kind ≢ kind
      → First kind c cs
      → First kind c (d ∷ cs)

-- The first condition of type Progressing is False with the reason ProgressDeadlineExceeded.
pub record DeadlineExceeded (dep : Deployment) : Type 0 where
  pub condition : Condition
  pub found : First "Progressing" condition dep.conditions
  pub status : condition.status ≡ "False"
  pub reason : condition.reason ≡ "ProgressDeadlineExceeded"

desired-Wants : (o : Option ℕ) → Wants o (desired o)
desired-Wants none = unset
desired-Wants (some n) = set n

desired_of_Wants : {o : Option ℕ} {n : ℕ} → Wants o n → desired o ≡ n
desired_of_Wants unset = refl
desired_of_Wants (set n) = refl

get_condition-First :
    (kind : String) (cs : List Condition) (c : Condition)
    → get_condition cs kind ≡ some c
    → First kind c cs
unfolding get_condition
get_condition-First kind [] c h = cc
get_condition-First kind (d ∷ cs) c h =
    by_kind (d.kind == kind) refl h (get_condition-First kind cs c)
  where
    by_kind :
        (b : Bool)
        → (d.kind == kind) ≡ b
        → (if b then some d else get_condition cs kind) ≡ some c
        → (get_condition cs kind ≡ some c → First kind c cs)
        → First kind c (d ∷ cs)
    by_kind true e k ih =
        let same : d ≡ c = cc in
        subst (λ x. First kind x (d ∷ cs)) same (here ((eq_iff d.kind kind).0 e))
    by_kind false e k ih = later (λ x. let y = (eq_iff d.kind kind).1 x in cc) (ih k)

get_condition_of_First :
    {kind : String} {c : Condition} {cs : List Condition}
    → First kind c cs
    → get_condition cs kind ≡ some c
unfolding get_condition
get_condition_of_First {kind} {c} {cs} (here e) =
    let same : (c.kind == kind) ≡ true = (eq_iff c.kind kind).1 e in rw same refl
get_condition_of_First {kind} {c} {cs} (later {d} n f) =
    let ih = get_condition_of_First f in
    let other : (d.kind == kind) ≡ false = ground (arith, n, eq_iff d.kind kind) in rw other ih

-- The code's test on the condition.
exceeded_iff :
    (dep : Deployment)
    → (exceeded (get_condition dep.conditions "Progressing") ≡ true) ↔ DeadlineExceeded dep
exceeded_iff dep = (there (get_condition dep.conditions "Progressing") refl, back)
  where
    there :
        (o : Option Condition)
        → get_condition dep.conditions "Progressing" ≡ o
        → exceeded o ≡ true
        → DeadlineExceeded dep
    there none e h = cc
    there (some c) e h = record {
      condition = c;
      found = get_condition-First "Progressing" dep.conditions c e;
      status = ground (arith, eq_iff c.status "False");
      reason = ground (arith, eq_iff c.reason "ProgressDeadlineExceeded");
    }

    back : DeadlineExceeded dep → exceeded (get_condition dep.conditions "Progressing") ≡ true
    back d = rw (get_condition_of_First d.found) (
        ground (
          arith,
          d.status,
          d.reason,
          eq_iff d.condition.status "False",
          eq_iff d.condition.reason "ProgressDeadlineExceeded",
        ))

-- A rollout counts as failed exactly when the controller has observed the current generation and the
-- deployment's Progressing condition reports an exceeded deadline.
evaluate_rollout-failed_iff :
    (dep : Deployment)
    → ((evaluate_rollout dep).state ≡ failed) ↔ (Observed dep × DeadlineExceeded dep)
unfolding evaluate_rollout
evaluate_rollout-failed_iff dep = (
  λ h. (ground arith, (exceeded_iff dep).0 (ground arith)),
  λ (o, d). let x = (exceeded_iff dep).1 d in rw x (ground arith),
)

-- A rollout counts as complete exactly when the controller has observed the current generation, every
-- pod is new, ready and available with none left of an old template, and no exceeded deadline is
-- reported.
evaluate_rollout-complete_iff :
    (dep : Deployment)
    → ((evaluate_rollout dep).state ≡ complete)
      ↔ (Observed dep × AllNew dep × ¬ DeadlineExceeded dep)
unfolding evaluate_rollout
evaluate_rollout-complete_iff dep = (
  λ h. (
    ground arith,
    record {
      wanted = desired dep.spec_replicas;
      wants = desired-Wants dep.spec_replicas;
      updated = ground arith;
      total = ground arith;
      ready = ground arith;
      available = ground arith;
    },
    λ d. let x = (exceeded_iff dep).1 d in ground arith,
  ),
  λ (o, a, n). elim (Bool-cases (exceeded (get_condition dep.conditions "Progressing"))) [
    | inl x ↦ absurd (n ((exceeded_iff dep).0 x))
    | inr x ↦
        rw x (ground (arith, desired_of_Wants a.wants, a.updated, a.total, a.ready, a.available))
  ],
)

-- A rollout counts as complete exactly when the controller has observed the current generation, every
-- pod is new, ready and available with none left of an old template, and no exceeded deadline is
-- reported; and it counts as failed exactly when the controller has observed the current generation
-- and the deployment's Progressing condition reports an exceeded deadline.
pub evaluate_rollout_iff :
    (dep : Deployment)
    → (((evaluate_rollout dep).state ≡ complete)
        ↔ (Observed dep × AllNew dep × ¬ DeadlineExceeded dep))
      × (((evaluate_rollout dep).state ≡ failed) ↔ (Observed dep × DeadlineExceeded dep))
evaluate_rollout_iff dep = (evaluate_rollout-complete_iff dep, evaluate_rollout-failed_iff dep)

-- A leftover condition of an earlier rollout decides nothing: until the controller has observed the
-- current generation the verdict is progressing, whatever the counts and conditions are.
evaluate_rollout_unobserved :
    (dep : Deployment)
    → dep.observed_generation < dep.generation
    → (evaluate_rollout dep).state ≡ progressing
unfolding evaluate_rollout
evaluate_rollout_unobserved dep h = ground arith
