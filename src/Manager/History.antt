-- ===== src/Manager/History.antt =====
-- The calls of the manager that a history is made of: requests, watchers, sweeps and reads.
use deploy_gateway.Base.{ℕ, String, ◌≡◌, Option, none}
use deploy_gateway.Authn.{GitHubIdentity}
use deploy_gateway.Store.{Operation}
use deploy_gateway.Store.Api.{Store, View, IsLawful}
use deploy_gateway.Manager.Platform.{Platform}
use deploy_gateway.Manager.World.{Config, World}
use deploy_gateway.Manager.Start.{restart, rollout, new_operation_id}
use deploy_gateway.Manager.Watch.{watch_rollout}
use deploy_gateway.Manager.Reconcile.{reconcile_sweep, get}
use deploy_gateway.Manager.Steps.{Reach}
use deploy_gateway.Manager.Steps.Starting.{restart-Reach, rollout-Reach}
use deploy_gateway.Manager.Steps.Watching.{watch_rollout-Safe}
use deploy_gateway.Manager.Steps.Reconciling.{reconcile_sweep-Safe, get-Safe}

-- A restart or a rollout with the random part of its id, some rounds of a watcher, a sweep, a read.
pub data Call : Type 0 where
  restarts : String → GitHubIdentity → String → String → Call
  rolls_out : String → GitHubIdentity → String → String → String → String → Call
  watches : ℕ → Operation → Option ℕ → Call
  sweeps : Call
  reads : String → Call

module _ (S : Store) (P : Platform) (c : Config) where
  unfoldable pub perform : Call → World S P → World S P
  perform (restarts ulid id ns dep) w = (restart S P c ulid id ns dep w).1
  perform (rolls_out ulid id ns dep container image) w =
      (rollout S P c ulid id ns dep container image w).1
  perform (watches fuel op msg) w = (watch_rollout S P c fuel op msg w).1
  perform sweeps w = (reconcile_sweep S P c w).1
  perform (reads op_id) w = (get S P c op_id w).1

module _ (S : Store) (P : Platform) (c : Config) (view : View S) where
  -- The id that a call draws is not in the store.
  abbrev pub FreshIn : World S P → Call → Type 0
  FreshIn w (restarts ulid id ns dep) = view w.store (new_operation_id ulid) ≡ none
  FreshIn w (rolls_out ulid id ns dep container image) = view w.store (new_operation_id ulid) ≡ none
  FreshIn w _ = Unit

  module _ (lawful : IsLawful S view) where
    pub perform-Reach :
        (call : Call) (w : World S P) → FreshIn w call → Reach S P c view w (perform S P c call w)
    unfolding perform
    perform-Reach (restarts ulid id ns dep) w fresh =
        restart-Reach S P c view lawful ulid id ns dep w fresh
    perform-Reach (rolls_out ulid id ns dep container image) w fresh =
        rollout-Reach S P c view lawful ulid id ns dep w container image fresh
    perform-Reach (watches fuel op msg) w fresh =
        (watch_rollout-Safe S P c view lawful fuel op msg).at w
    perform-Reach sweeps w fresh = (reconcile_sweep-Safe S P c view lawful).at w
    perform-Reach (reads op_id) w fresh = (get-Safe S P c view lawful op_id).at w
