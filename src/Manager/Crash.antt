-- ===== src/Manager/Crash.antt =====
-- When `Rollout` reads the message of an error that is nil.
use deploy_gateway.Base.{
  String, ◌==◌, ◌≡◌, ◌↔◌, refl, ap, inl, inr, ◌⊎◌, Bool, true, false, Option, none, some, List, [],
  ◌∷◌, Result, ok, err, GoError, is_ambiguous, eq_iff, if◌then◌else◌,
}
use deploy_gateway.Base.StateMonad.{pure, ◌>>=◌}
use deploy_gateway.Store.{Operation}
use deploy_gateway.Store.Api.{Store}
use deploy_gateway.Kube.{Container, Deployment}
use deploy_gateway.Authn.{GitHubIdentity}
use deploy_gateway.Manager.Platform.{Platform}
use deploy_gateway.Manager.World.{Config, World, M, on_platform}
use deploy_gateway.Manager.Start.{
  only_container, container_of, with_resolved, resolve_container, rollout, rollout_container,
  Outcome, panics, after_patch, after_put,
}

module _ (S : Store) (P : Platform) (c : Config) where
  after_patch-panics :
      (op : Operation) (refused : Option GoError) (w : World S P)
      → ¬ ((after_patch S P c op refused w).0 ≡ panics)
  unfolding after_patch ◌>>=◌
  after_patch-panics op none w h = cc
  after_patch-panics op (some e) w h = cc

  after_put-panics :
      (op : Operation) (patch : P.State → Option GoError × P.State) (refused : Option GoError)
      (w : World S P)
      → ¬ ((after_put S P c op patch refused w).0 ≡ panics)
  unfolding after_put ◌>>=◌
  after_put-panics op patch none w h = after_patch-panics op _ _ h
  after_put-panics op patch (some e) w h = cc

  branches :
      (b : Bool) (x y : M S P Outcome) (w : World S P)
      → ((if b then x else y) w).0 ≡ panics
      → ((b ≡ true) × ((x w).0 ≡ panics)) ⊎ ((b ≡ false) × ((y w).0 ≡ panics))
  branches true x y w h = inl (refl, h)
  branches false x y w h = inr (refl, h)

  name_of : {a b : String} → ok a ≡ ok b → a ≡ b
  name_of h = cc

  module _ (ulid : String) (id : GitHubIdentity) (namespace deployment : String) where
    rollout_container-panics :
        (container image : String) (w : World S P)
        → ¬ ((rollout_container S P c ulid id namespace deployment container image w).0 ≡ panics)
    unfolding rollout_container ◌>>=◌
    rollout_container-panics container image w h = after_put-panics _ _ _ _ h

    with_resolved-panics_iff :
        (image : String) (r : Result String) (w : World S P)
        → ((with_resolved S P c ulid id namespace deployment image r w).0 ≡ panics) ↔ (r ≡ ok "")
    unfolding with_resolved pure ◌>>=◌
    with_resolved-panics_iff image (err e) w = (
      λ h. elim (branches (is_ambiguous e) _ _ w h) [ inl (_, p) ↦ cc | inr (_, p) ↦ cc ],
      λ h. cc,
    )
    with_resolved-panics_iff image (ok name) w = (
      λ h. elim (branches (name == "") _ _ w h) [
        | inl (e, _) ↦ ap (λ (n : String). ok n) ((eq_iff name "").0 e)
        | inr (_, p) ↦ absurd (rollout_container-panics name image w p)
      ],
      λ h. rw ((eq_iff name "").1 (name_of h)) refl,
    )

    only_container-nameless_iff :
        (cs : List Container)
        → (only_container namespace deployment cs ≡ ok "")
          ↔ ((only : Container) × (cs ≡ only ∷ []) × (only.name ≡ ""))
    unfolding only_container
    only_container-nameless_iff [] = (λ h. cc, λ (only, e, n). cc)
    only_container-nameless_iff (x ∷ []) = (λ h. (x, refl, cc), λ (only, e, n). cc)
    only_container-nameless_iff (x ∷ y ∷ cs) = (λ h. cc, λ (only, e, n). cc)

    -- The request names no container, and the only container of the deployment, which could be read, has
    -- an empty name.
    pub record IsNameless (container : String) (w : World S P) : Type 0 where
      pub unnamed : container ≡ ""
      pub dep : Deployment
      pub got : (P.get_deployment namespace deployment w.platform).0 ≡ ok dep
      pub only : Container
      pub one : dep.containers ≡ only ∷ []
      pub nameless : only.name ≡ ""

    container_of-Nameless :
        (container : String) (w : World S P) (found : Result Deployment)
        → container ≡ ""
        → (P.get_deployment namespace deployment w.platform).0 ≡ found
        → container_of namespace deployment found ≡ ok ""
        → IsNameless container w
    unfolding container_of
    container_of-Nameless container w (err e) unnamed got h = cc
    container_of-Nameless container w (ok dep) unnamed got h =
        let (only, one, nameless) = (only_container-nameless_iff dep.containers).0 h in
        record {
          unnamed = unnamed;
          dep = dep;
          got = got;
          only = only;
          one = one;
          nameless = nameless;
        }

    nameless-container_of :
        (container : String) (w : World S P)
        → IsNameless container w
        → container_of namespace deployment (P.get_deployment namespace deployment w.platform).0
          ≡ ok ""
    unfolding container_of
    nameless-container_of container w n =
        rw n.got ((only_container-nameless_iff n.dep.containers).1 (n.only, n.one, n.nameless))

    -- A rollout dereferences the nil error exactly when the request names no container, the deployment can
    -- be read, and its only container has an empty name.
    pub rollout-panics_iff :
        (container image : String) (w : World S P)
        → ((rollout S P c ulid id namespace deployment container image w).0 ≡ panics)
          ↔ IsNameless container w
    unfolding rollout resolve_container ◌>>=◌ on_platform
    rollout-panics_iff container image w = (
      λ h. elim (branches (container == "") _ _ w h) [
        | inl (e, p) ↦
            container_of-Nameless container w _ ((eq_iff container "").0 e) refl
              ((with_resolved-panics_iff image _ _).0 p)
        | inr (_, p) ↦ absurd (rollout_container-panics container image w p)
      ],
      λ n.
          rw ((eq_iff container "").1 n.unnamed)
            ((with_resolved-panics_iff image _ _).1 (nameless-container_of container w n)),
    )
