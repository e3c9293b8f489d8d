-- ===== src/Kube.antt =====
-- internal/kube: the deployment as the Kubernetes API shows it, and the interface `Kube`.
pub mod Rollout
pub mod Stamp
pub mod Patch
pub mod Client
use deploy_gateway.Base.{ℕ, String, Option, List}

-- The part of `appsv1.Deployment` that the program reads. Replica counts and generations are never
-- negative (the API server validates them), and neither is a progress deadline.
pub record Condition : Type 0 where
  pub kind : String
  pub status : String
  pub reason : String

pub record Container : Type 0 where
  pub name : String
  pub image : String

pub record Deployment : Type 0 where
  pub generation : ℕ
  pub spec_replicas : Option ℕ
  pub progress_deadline_seconds : Option ℕ
  pub containers : List Container
  pub observed_generation : ℕ
  pub replicas : ℕ
  pub updated_replicas : ℕ
  pub ready_replicas : ℕ
  pub available_replicas : ℕ
  pub conditions : List Condition

-- An object of a watch event is a deployment, or something else (an error status, say).
pub data WatchObject : Type 0 where
  deployment_object : Deployment → WatchObject
  other_object : WatchObject
