-- ===== src/Manager/Steps/Starting.antt =====
-- `Restart` and `Rollout` take only such steps, if the id that they draw is new.
use deploy_gateway.Base.{
  String, ◌<>◌, ◌==◌, ◌≡◌, refl, inl, inr, true, false, Bool, Option, none, some, Result, ok, err,
  GoError, Option-cases, is_ambiguous, if◌then◌else◌,
}
use deploy_gateway.Base.StateMonad.{◌>>=◌}
use deploy_gateway.Authn.{GitHubIdentity}
use deploy_gateway.Store.{Operation}
use deploy_gateway.Store.Api.{Store, View, IsLawful}
use deploy_gateway.Manager.Platform.{Platform}
use deploy_gateway.Manager.World.{Config, World, M, on_store, on_platform, now}
use deploy_gateway.Manager.Start.{
  action_restart, action_rollout, new_operation_id, started_operation, failed_rollout_operation,
  after_patch, after_put, after_failed_put, restart, rollout_container, record_failed_rollout,
  resolve_container, with_resolved, rollout,
}
use deploy_gateway.Manager.Steps.{messages, quiet, created, Reach, here, next, Reach-trans}
use deploy_gateway.Manager.Steps.Methods.{Safe, safe_rules}

module _ (S : Store) (P : Platform) (c : Config) (view : View S) (lawful : IsLawful S view) where
  abbrev Safely : {A : Type 0} → M S P A → Type 0
  Safely = Safe S P c view lawful

  after_patch-Safe :
      (op : Operation) (refused : Option GoError) → Safely (after_patch S P c op refused)
  unfolding after_patch
  after_patch-Safe op (some e) = search safe_rules
  after_patch-Safe op none = search safe_rules

  after_put-Safe :
      (op : Operation) (patch : P.State → Option GoError × P.State) (refused : Option GoError)
      → Safely (after_put S P c op patch refused)
  unfolding after_put
  after_put-Safe op patch (some e) = search safe_rules
  after_put-Safe op patch none = search (safe_rules, after_patch-Safe)

  after_failed_put-Safe :
      (op : Operation) (code message : String) (refused : Option GoError)
      → Safely (after_failed_put S P c op code message refused)
  unfolding after_failed_put
  after_failed_put-Safe op code message (some e) = search safe_rules
  after_failed_put-Safe op code message none = search safe_rules

  module _ (w : World S P) where
    -- A put under a new id is a creation, told of or not, or it fails.
    pub put-Reach :
        (op : Operation)
        → view w.store op.operation_id ≡ none
        → messages op.status ≡ 0
        → Reach S P c view w (on_store S P (S.put_operation op) w).1
    unfolding on_store
    put-Reach op fresh status = elim (Option-cases (S.put_operation op w.store).0) [
      | inl e ↦ next here (created op fresh status (λ j. lawful.view-put op w.store j e) refl)
      | inr (x, e) ↦ elim (lawful.view-put_failed op w.store e) [
        | inl same ↦ next here (quiet same refl)
        | inr made ↦ next here (created op fresh status made refl)
      ]
    ]

    Reach-if :
        {A : Type 0} (b : Bool) (m n : M S P A)
        → Reach S P c view w (m w).1
        → Reach S P c view w (n w).1
        → Reach S P c view w ((if b then m else n) w).1
    Reach-if true m n hm hn = hm
    Reach-if false m n hm hn = hn

  module _ (ulid : String) (id : GitHubIdentity) (namespace deployment : String) where
    -- A restart whose operation id is not in the store yet takes only such steps.
    pub restart-Reach :
        (w : World S P)
        → view w.store (new_operation_id ulid) ≡ none
        → Reach S P c view w (restart S P c ulid id namespace deployment w).1
    unfolding restart ◌>>=◌ now
    restart-Reach w fresh =
        let op =
          started_operation ulid id action_restart namespace deployment "" ""
            (P.clock w.platform) in
        Reach-trans S P c view (put-Reach w op fresh refl)
          ((after_put-Safe op (P.restart_deployment namespace deployment) _).at _)

    rollout_container-Reach :
        (w : World S P) (container image : String)
        → view w.store (new_operation_id ulid) ≡ none
        → Reach S P c view w
            (rollout_container S P c ulid id namespace deployment container image w).1
    unfolding rollout_container ◌>>=◌ now
    rollout_container-Reach w container image fresh =
        let op =
          started_operation ulid id action_rollout namespace deployment container image
            (P.clock w.platform) in
        Reach-trans S P c view (put-Reach w op fresh refl)
          ((after_put-Safe op (P.rollout_deployment namespace deployment container image) _).at _)

    record_failed_rollout-Reach :
        (w : World S P) (container image code message : String)
        → view w.store (new_operation_id ulid) ≡ none
        → Reach S P c view w
            (record_failed_rollout S P c ulid id namespace deployment container image code message
              w).1
    unfolding record_failed_rollout ◌>>=◌ now
    record_failed_rollout-Reach w container image code message fresh =
        let op =
          failed_rollout_operation ulid id namespace deployment container image
            (P.clock w.platform) in
        Reach-trans S P c view (put-Reach w op fresh refl)
          ((after_failed_put-Safe op code message _).at _)

    with_resolved-Reach :
        (w : World S P) (image : String) (resolved : Result String)
        → view w.store (new_operation_id ulid) ≡ none
        → Reach S P c view w (with_resolved S P c ulid id namespace deployment image resolved w).1
    unfolding with_resolved ◌>>=◌
    with_resolved-Reach w image (err e) fresh = Reach-if w (is_ambiguous e) _ _ here (
        record_failed_rollout-Reach w "" image "K8S_PATCH_FAILED"
          ("resolve container: " <> e.message) fresh)
    with_resolved-Reach w image (ok resolved) fresh =
        Reach-if w (resolved == "") _ _ here (rollout_container-Reach w resolved image fresh)

    resolve_container-Safe : Safely (resolve_container S P c namespace deployment)
    unfolding resolve_container
    resolve_container-Safe = search safe_rules

    -- So does a rollout.
    pub rollout-Reach :
        (w : World S P) (container image : String)
        → view w.store (new_operation_id ulid) ≡ none
        → Reach S P c view w (rollout S P c ulid id namespace deployment container image w).1
    unfolding rollout resolve_container ◌>>=◌ on_platform
    rollout-Reach w container image fresh =
        Reach-if w (container == "") _ _
          (Reach-trans S P c view (resolve_container-Safe.at w) (
            with_resolved-Reach (resolve_container S P c namespace deployment w).1 image
              (resolve_container S P c namespace deployment w).0 fresh))
          (rollout_container-Reach w container image fresh)
