-- ===== src/Tests/Policies.antt =====
-- Refs, policies and rollout verdicts.
use deploy_gateway.Base.{◌≡◌, ◌≢◌, ◌↔◌, ◌⊎◌, Any, err, refl, String, true, false, List, [], ◌∷◌, ok}
use deploy_gateway.Base.Text.{strip_prefix}
use deploy_gateway.Authz.{Request}
use deploy_gateway.Authz.Policy.{Policy, file_authorize, file_authorizer}
use deploy_gateway.Authz.Policy.Laws.{Covers, file_authorize_iff}
use deploy_gateway.Authz.Ref.{err_malformed_ref_constraint, match_ref}
use deploy_gateway.Authz.Ref.Laws.{Permits, Malformed, match_ref_iff}
use deploy_gateway.Authz.Shadow.{decide, new_shadow, decide-new_shadow}
use deploy_gateway.Kube.Rollout.{complete, failed, evaluate_rollout}
use deploy_gateway.Kube.Rollout.Laws.{Observed, AllNew, DeadlineExceeded, evaluate_rollout_iff}
use deploy_gateway.Tests.Lab.{rolled_out, stuck}

abbrev pub policy : Policy
policy = record {
  version = 1;
  repositories =
      record {
        repository = "tuncloud/backend";
        permissions =
            record {
              action = "deployment.restart";
              namespaces = "prod" ∷ [];
              deployments = "*" ∷ [];
            }
            ∷ [];
      }
      ∷ [];
}

abbrev restart_request : Request
restart_request = record {
  repository = "tuncloud/backend";
  action = "deployment.restart";
  namespace = "prod";
  deployment = "web";
  ref = "refs/heads/main";
}

abbrev rollout_request : Request
rollout_request = record restart_request { action = "deployment.rollout" }

abbrev refs : List String
refs = "refs/heads/main" ∷ "refs/heads/release/*" ∷ []

file_authorize_restart :
    file_authorize policy restart_request ≡ ok (record { allowed = true; reason = "" })
unfolding file_authorize
file_authorize_restart = refl

file_authorize_iff_example :
    (file_authorize policy restart_request ≡ ok (record { allowed = true; reason = "" }))
    ↔ Any (Covers "tuncloud/backend" "deployment.restart" "prod" "web") policy.repositories
file_authorize_iff_example = file_authorize_iff policy restart_request

match_ref_release : match_ref refs "refs/heads/release/7" ≡ ok true
unfolding match_ref strip_prefix
match_ref_release = refl

match_ref_other : match_ref refs "refs/heads/feature" ≡ ok false
unfolding match_ref strip_prefix
match_ref_other = refl

match_ref_malformed :
    match_ref ("*" ∷ "refs/*/main" ∷ []) "refs/heads/main" ≡ err err_malformed_ref_constraint
unfolding match_ref
match_ref_malformed = refl

match_ref_iff_example :
    ((match_ref refs "refs/heads/release/7" ≡ err err_malformed_ref_constraint)
      ↔ Any Malformed refs)
    × ((match_ref refs "refs/heads/release/7" ≡ ok true) ↔ (
        (refs ≡ [])
        ⊎ ((¬ Any Malformed refs)
            × (◌≢◌ {A = String} "refs/heads/release/7" "")
            × Any (λ p. Permits p "refs/heads/release/7") refs)))
match_ref_iff_example = match_ref_iff refs "refs/heads/release/7"

-- The shadow would deny the second request; the primary's decisions stand.
decide-new_shadow_example :
    decide
      (new_shadow (file_authorizer policy) (file_authorizer (record policy { repositories = [] })))
      (record { primary = tt; shadow = tt; log = [] })
      (rollout_request ∷ restart_request ∷ [])
    ≡ decide (file_authorizer policy) tt (rollout_request ∷ restart_request ∷ [])
decide-new_shadow_example =
    decide-new_shadow (file_authorizer policy)
      (file_authorizer (record policy { repositories = [] }))
      (record { primary = tt; shadow = tt; log = [] }) (rollout_request ∷ restart_request ∷ [])

stuck_fails : (evaluate_rollout stuck).state ≡ failed
unfolding evaluate_rollout
stuck_fails = refl

evaluate_rollout_iff_example :
    (((evaluate_rollout rolled_out).state ≡ complete)
      ↔ (Observed rolled_out × AllNew rolled_out × ¬ DeadlineExceeded rolled_out))
    × (((evaluate_rollout rolled_out).state ≡ failed)
        ↔ (Observed rolled_out × DeadlineExceeded rolled_out))
evaluate_rollout_iff_example = evaluate_rollout_iff rolled_out
