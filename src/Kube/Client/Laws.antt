-- ===== src/Kube/Client/Laws.antt =====
-- What a patch that the client reports as made was.
use deploy_gateway.Base.{
  String, ◌==◌, ◌||◌, ◌≡◌, ◌≢◌, refl, sym, ap, ◌∙◌, Bool, true, false, Option, none, some, GoError,
  new_error, eq_iff, if◌then◌else◌,
}
use deploy_gateway.Kube.Stamp.{restart_stamp}
use deploy_gateway.Kube.Patch.{restart_patch, rollout_patch}
use deploy_gateway.Kube.Client.{
  Deployments, try_restart, restart_deployment, try_rollout, rollout_deployment,
}

module _ (D : Deployments) where
  -- The tries of a function from one state on: each but the last ended in a conflict, and some time
  -- passed before the next.
  pub data Tries (f : D.State → Option GoError × D.State) (r : Option GoError × D.State)
      : D.State → Type 0 where
    last_try : {s : D.State} → r ≡ f s → Tries f r s
    next_try :
        {s s' : D.State} {e : GoError}
        → (f s).0 ≡ some e
        → D.is_conflict e ≡ true
        → Tries f r s'
        → Tries f r s

  -- `RetryOnConflict` tries again as long as there is a conflict, and returns what the last try did.
  pub record Retries : Type 0 where
    pub tries :
        (f : D.State → Option GoError × D.State) (s : D.State) → Tries f (D.retry_on_conflict f s) s

  -- The API server took the body in some state, and the patch's own state is the one that is left.
  pub record Taken (namespace name : String) (body : D.State → String) (s' : D.State) : Type 0 where
    pub at : D.State
    pub taken : D.patch namespace name (body at) at ≡ (none, s')

  Tries-Taken :
      (namespace name : String) (body : D.State → String) (r : Option GoError × D.State)
      (s : D.State)
      → Tries (λ x. D.patch namespace name (body x) x) r s
      → r.0 ≡ none
      → Taken namespace name body r.1
  Tries-Taken namespace name body (e, s') s (last_try h) k = record {
    at = s;
    taken = sym h ∙ ap (λ x. (x, s')) k;
  }
  Tries-Taken namespace name body r s (next_try _ _ t) k = Tries-Taken namespace name body r _ t k

  module _ (retries : Retries) where
    pub restart_deployment-Taken :
        (namespace name : String) (s : D.State)
        → (restart_deployment D namespace name s).0 ≡ none
        → Taken namespace name
            (λ x. restart_patch D.is_print (restart_stamp (D.clock x)))
            (restart_deployment D namespace name s).1
    unfolding restart_deployment try_restart
    restart_deployment-Taken namespace name s h =
        Tries-Taken namespace name _ _ s (retries.tries _ s) h

    pub rollout_deployment-Taken :
        (namespace name container image : String) (s : D.State)
        → (rollout_deployment D namespace name container image s).0 ≡ none
        → (container ≢ "")
          × (image ≢ "")
          × Taken namespace name
              (λ x. rollout_patch D.is_print (restart_stamp (D.clock x)) container image)
              (rollout_deployment D namespace name container image s).1
    unfolding rollout_deployment try_rollout
    rollout_deployment-Taken namespace name container image s h =
        checked (container == "") (image == "") refl refl h
      where
        checked :
            (b d : Bool)
            → (container == "") ≡ b
            → (image == "") ≡ d
            → let r =
                if b || d
                then (some (new_error "rollout requires container and image"), s)
                else D.retry_on_conflict (try_rollout D namespace name container image) s in
              r.0 ≡ none
              → (container ≢ "")
                × (image ≢ "")
                × Taken namespace name
                    (λ x. rollout_patch D.is_print (restart_stamp (D.clock x)) container image)
                    r.1
        checked true d e g k = cc
        checked false true e g k = cc
        checked false false e g k = (
          λ empty. let t = (eq_iff container "").1 empty in cc,
          λ empty. let t = (eq_iff image "").1 empty in cc,
          Tries-Taken namespace name _ _ s (retries.tries _ s) k,
        )
