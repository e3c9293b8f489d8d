-- ===== src/Authz/Policy.antt =====
-- internal/authz/policy.go and file.go: the static policy. Reading the file and decoding the YAML are a
-- parameter.
pub mod Laws
use deploy_gateway.Base.{
  ℕ, String, ◌<>◌, ◌==◌, Bool, true, false, ◌&&◌, ◌||◌, List, [], ◌∷◌, Result, ok, err, wrap,
  new_error, eqb, if◌then◌else◌,
}
use deploy_gateway.Base.Text.{show}
use deploy_gateway.Authz.{Request, Decision, Authorizer}

pub record Permission : Type 0 where
  pub action : String
  pub namespaces : List String
  pub deployments : List String

pub record RepositoryEntry : Type 0 where
  pub repository : String
  pub permissions : List Permission

pub record Policy : Type 0 where
  pub version : ℕ
  pub repositories : List RepositoryEntry

-- `os.ReadFile` and `yaml.Unmarshal`
pub record PolicySource : Type 1 where
  pub Bytes : Type 0
  pub read_file : String → Result Bytes
  pub unmarshal : Bytes → Result Policy

checked : Result Policy → Result Policy
unfolding show
checked (err e) = err (wrap "parse policy" e)
checked (ok p) =
    if eqb p.version 1
    then ok p
    else err (new_error ("unsupported policy version " <> show p.version))

module _ (f : PolicySource) where
  load_bytes : Result f.Bytes → Result Policy
  unfolding checked
  load_bytes (err e) = err (wrap "read policy" e)
  load_bytes (ok raw) = checked (f.unmarshal raw)

  unfoldable pub load_policy : String → Result Policy
  unfolding load_bytes
  load_policy path = load_bytes (f.read_file path)

unfoldable pub match_list : List String → String → Bool
match_list [] value = false
match_list (v ∷ list) value = if v == "*" || v == value then true else match_list list value

-- The inner loop of `Policy.Authorize`
unfoldable pub any_permission : List Permission → String → String → String → Bool
unfolding match_list
any_permission [] action namespace deployment = false
any_permission (perm ∷ perms) action namespace deployment =
    if perm.action == action
      && match_list perm.namespaces namespace
      && match_list perm.deployments deployment
    then true
    else any_permission perms action namespace deployment

unfoldable pub any_entry : List RepositoryEntry → String → String → String → String → Bool
unfolding any_permission
any_entry [] repo action namespace deployment = false
any_entry (entry ∷ entries) repo action namespace deployment =
    let rest = any_entry entries repo action namespace deployment in
    if entry.repository == repo
    then (if any_permission entry.permissions action namespace deployment then true else rest)
    else rest

-- `Policy.Authorize`
unfoldable pub policy_authorize : Policy → String → String → String → String → Bool
unfolding any_entry
policy_authorize p repo action namespace deployment =
    any_entry p.repositories repo action namespace deployment

-- `FileAuthorizer.Authorize`
unfoldable pub file_authorize : Policy → Request → Result Decision
unfolding policy_authorize
file_authorize p req =
    if policy_authorize p req.repository req.action req.namespace req.deployment
    then ok (record { allowed = true; reason = "" })
    else ok (record {
      allowed = false;
      reason =
          "policy does not allow " <> req.action <> " on " <> req.namespace <> "/"
          <> req.deployment;
    })

abbrev pub file_authorizer : Policy → Authorizer
file_authorizer p = record { State = Unit {0}; authorize = λ req s. (file_authorize p req, s) }
