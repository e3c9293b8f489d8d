-- ===== src/Authz/Policy/Laws.antt =====
-- `Policy.Authorize` decides whether the policy has a grant.
use deploy_gateway.Base.{
  String, ◌==◌, eq_iff, ◌≡◌, refl, ◌↔◌, ◌⊎◌, inl, inr, Bool, true, false, ◌&&◌, ◌||◌, List, [], ◌∷◌,
  ok, Any, arith, or_iff, if◌then◌else◌,
}
use deploy_gateway.Authz.{Request}
use deploy_gateway.Authz.Policy.{
  Permission, RepositoryEntry, Policy, match_list, any_permission, any_entry, policy_authorize,
  file_authorize,
}

-- The list has the value, or "*".
abbrev pub Lists : List String → String → Type 0
Lists list value = Any (λ v. (v ≡ "*") ⊎ (v ≡ value)) list

pub record PermissionCovers (action namespace deployment : String) (perm : Permission)
    : Type 0 where
  pub action_same : perm.action ≡ action
  pub namespaces : Lists perm.namespaces namespace
  pub deployments : Lists perm.deployments deployment

match_list_iff :
    (list : List String) (value : String) → (match_list list value ≡ true) ↔ Lists list value
unfolding match_list
match_list_iff [] value = (λ h. cc, λ h. absurd h)
match_list_iff (v ∷ list) value =
    or_iff (v == "*" || v == value) (match_list list value)
      (ground (arith, eq_iff v "*", eq_iff v value)) (match_list_iff list value)

and_parts : (a b c : Bool) → ((a && b && c) ≡ true) ↔ ((a ≡ true) × (b ≡ true) × (c ≡ true))
and_parts a b c = ground arith

permission_iff :
    (perm : Permission) (action namespace deployment : String)
    → ((perm.action == action
          && match_list perm.namespaces namespace
          && match_list perm.deployments deployment)
        ≡ true)
      ↔ PermissionCovers action namespace deployment perm
permission_iff perm action namespace deployment = (there, back)
  where
    tests :
        ((perm.action == action
            && match_list perm.namespaces namespace
            && match_list perm.deployments deployment)
          ≡ true)
        ↔ (((perm.action == action) ≡ true)
            × (match_list perm.namespaces namespace ≡ true)
            × (match_list perm.deployments deployment ≡ true))
    tests =
        and_parts (perm.action == action) (match_list perm.namespaces namespace)
          (match_list perm.deployments deployment)

    there :
        (perm.action == action
            && match_list perm.namespaces namespace
            && match_list perm.deployments deployment)
          ≡ true
        → PermissionCovers action namespace deployment perm
    there h =
        let (a, n, d) = tests.0 h in
        record {
          action_same = (eq_iff perm.action action).0 a;
          namespaces = (match_list_iff perm.namespaces namespace).0 n;
          deployments = (match_list_iff perm.deployments deployment).0 d;
        }

    back :
        PermissionCovers action namespace deployment perm
        → (perm.action == action
            && match_list perm.namespaces namespace
            && match_list perm.deployments deployment)
          ≡ true
    back p = tests.1 (
      (eq_iff perm.action action).1 p.action_same,
      (match_list_iff perm.namespaces namespace).1 p.namespaces,
      (match_list_iff perm.deployments deployment).1 p.deployments,
    )

any_permission_iff :
    (perms : List Permission) (action namespace deployment : String)
    → (any_permission perms action namespace deployment ≡ true)
      ↔ Any (PermissionCovers action namespace deployment) perms
unfolding any_permission
any_permission_iff [] action namespace deployment = (λ h. cc, λ h. absurd h)
any_permission_iff (perm ∷ perms) action namespace deployment =
    or_iff _ (any_permission perms action namespace deployment)
      (permission_iff perm action namespace deployment)
      (any_permission_iff perms action namespace deployment)

-- One entry of the outer loop: it is skipped, or it decides, or the loop goes on.
entry_or_iff :
    {P Q : Type 0} (same any rest : Bool) (repo name : String)
    → (same ≡ true) ↔ (name ≡ repo)
    → (any ≡ true) ↔ P
    → (rest ≡ true) ↔ Q
    → ((if same then (if any then true else rest) else rest) ≡ true) ↔ (((name ≡ repo) × P) ⊎ Q)
entry_or_iff {P} {Q} true any rest repo name s p q =
    (λ h. there ((or_iff any rest p q).0 h), λ h. (or_iff any rest p q).1 (back h))
  where
    there : P ⊎ Q → ((name ≡ repo) × P) ⊎ Q
    there (inl x) = inl (s.0 refl, x)
    there (inr y) = inr y

    back : ((name ≡ repo) × P) ⊎ Q → P ⊎ Q
    back (inl x) = inl x.1
    back (inr y) = inr y
entry_or_iff {P} {Q} false any rest repo name s p q = (λ h. inr (q.0 h), back)
  where
    back : ((name ≡ repo) × P) ⊎ Q → rest ≡ true
    back (inl x) = cc (s.1 x.0)
    back (inr y) = q.1 y

-- An entry of the repository with a permission that covers the question.
abbrev pub Covers : String → String → String → String → RepositoryEntry → Type 0
Covers repo action namespace deployment entry =
    (entry.repository ≡ repo) × Any (PermissionCovers action namespace deployment) entry.permissions

any_entry_iff :
    (entries : List RepositoryEntry) (repo action namespace deployment : String)
    → (any_entry entries repo action namespace deployment ≡ true)
      ↔ Any (Covers repo action namespace deployment) entries
unfolding any_entry
any_entry_iff [] repo action namespace deployment = (λ h. cc, λ h. absurd h)
any_entry_iff (entry ∷ entries) repo action namespace deployment =
    entry_or_iff (entry.repository == repo)
      (any_permission entry.permissions action namespace deployment)
      (any_entry entries repo action namespace deployment) repo entry.repository
      (eq_iff entry.repository repo)
      (any_permission_iff entry.permissions action namespace deployment)
      (any_entry_iff entries repo action namespace deployment)

-- The file backend allows a request exactly when the policy has an entry for its repository with a
-- permission for its action whose namespaces and deployments list the request's, or "*". The ref plays
-- no part.
pub file_authorize_iff :
    (p : Policy) (req : Request)
    → (file_authorize p req ≡ ok (record { allowed = true; reason = "" }))
      ↔ Any (Covers req.repository req.action req.namespace req.deployment) p.repositories
unfolding file_authorize policy_authorize
file_authorize_iff p req =
    let e = any_entry_iff p.repositories req.repository req.action req.namespace req.deployment in
    (λ h. e.0 (ground arith), λ h. rw (e.1 h))
