-- ===== src/Manager/Platform.antt =====
-- What the manager reaches besides the store: the interface `Kube` of internal/kube/client.go, the
-- clock and the contexts. Time passes at the calls, which move the platform's state on.
use deploy_gateway.Base.{ℕ, ◌+◌, ◌≤◌, String, Bool, Option, List, GoError, Result}
use deploy_gateway.Store.{Time}
use deploy_gateway.Kube.{Deployment, WatchObject}

pub record Platform : Type 1 where
  pub State : Type 0
  pub restart_deployment : String → String → State → Option GoError × State
  pub rollout_deployment : String → String → String → String → State → Option GoError × State
  pub get_deployment : String → String → State → Result Deployment × State
  -- The objects that a watch delivers until its channel closes.
  pub watch_deployment : String → String → State → Result (List WatchObject) × State
  -- `time.Now()`
  pub clock : State → Time
  -- The state after a time of sleep.
  pub elapse : ℕ → State → State
  -- The context of the caller (an HTTP request, or the sweeper's) is done.
  pub caller_done : State → Bool

-- The clock never runs back, and a sleep takes its time at least.
pub record IsTimely (P : Platform) : Type 0 where
  pub clock-get :
      (ns name : String) (e : P.State) → P.clock e ≤ P.clock (P.get_deployment ns name e).1
  pub clock-watch :
      (ns name : String) (e : P.State) → P.clock e ≤ P.clock (P.watch_deployment ns name e).1
  pub clock-elapse : (d : ℕ) (e : P.State) → P.clock e + d ≤ P.clock (P.elapse d e)
