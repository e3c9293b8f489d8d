-- ===== src/Tests/Lab.antt =====
-- A small cluster, an identity, and operations, on which the program runs.
use deploy_gateway.Base.{ℕ, ◌+◌, ◌*◌, true, false, none, some, [], ◌∷◌, ok, arith}
use deploy_gateway.Store.{second, Operation}
use deploy_gateway.Store.InMemory.{new_in_memory}
use deploy_gateway.Kube.{Deployment, deployment_object, other_object}
use deploy_gateway.Authn.{GitHubIdentity}
use deploy_gateway.Manager.Platform.{Platform, IsTimely}
use deploy_gateway.Manager.World
use deploy_gateway.Manager.World.{World}
use deploy_gateway.Manager.Start.{action_restart, started_operation}

abbrev pub rolled_out : Deployment
rolled_out = record {
  generation = 3;
  spec_replicas = some 2;
  progress_deadline_seconds = some 5;
  containers = record { name = "web"; image = "web:2" } ∷ [];
  observed_generation = 3;
  replicas = 2;
  updated_replicas = 2;
  ready_replicas = 2;
  available_replicas = 2;
  conditions = [];
}

abbrev pub unobserved : Deployment
unobserved = record rolled_out { observed_generation = 2 }

abbrev pub stuck : Deployment
stuck = record rolled_out {
  ready_replicas = 1;
  conditions =
      record { kind = "Progressing"; status = "False"; reason = "ProgressDeadlineExceeded" } ∷ [];
}

-- The state is the clock. A read takes a second, and the rollout is over after two of them.
abbrev pub cluster : Platform
cluster = record {
  State = ℕ;
  restart_deployment = λ ns name e. (none, e);
  rollout_deployment = λ ns name container image e. (none, e);
  get_deployment = λ ns name e. (ok unobserved, e + second);
  watch_deployment =
      λ ns name e. (ok (other_object ∷ deployment_object rolled_out ∷ []), e + second);
  clock = λ e. e;
  elapse = λ d e. e + d;
  caller_done = λ e. false;
}

pub cluster-IsTimely : IsTimely cluster
cluster-IsTimely = record {
  clock-get = λ ns name e. omega arith;
  clock-watch = λ ns name e. omega arith;
  clock-elapse = λ d e. omega arith;
}

abbrev pub identity : GitHubIdentity
identity = record {
  subject = "repo:tuncloud/backend";
  repository = "tuncloud/backend";
  repository_id = "17";
  repository_owner = "tuncloud";
  ref = "refs/heads/main";
  workflow = "deploy";
  workflow_ref = "deploy.yml";
  environment = "";
  actor = "ada";
  event_name = "push";
  run_id = "9";
  run_attempt = "1";
}

abbrev pub running_op : Operation
running_op = started_operation "A1" identity action_restart "prod" "web" "" "" (10 * second)

abbrev pub config : World.Config
config = record { default_deadline = 600 * second; notify_enabled = true }

-- The operation is in the store, running.
abbrev pub busy : World new_in_memory cluster
busy = record {
  store = ("op_a1", running_op) ∷ [];
  platform = 10 * second;
  notices = [];
  watchers = [];
}

abbrev pub idle : World new_in_memory cluster
idle = record { store = []; platform = 10 * second; notices = []; watchers = [] }
