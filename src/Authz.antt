-- ===== src/Authz.antt =====
-- internal/authz/authz.go: the question, the answer, and the interface `Authorizer`. An authorizer has a
-- state of its own (a cache, say) that a call may change.
pub mod Policy
pub mod Ref
pub mod Shadow
use deploy_gateway.Base.{String, Bool, Result}

pub record Request : Type 0 where
  pub repository : String
  pub action : String
  pub namespace : String
  pub deployment : String
  pub ref : String

pub record Decision : Type 0 where
  pub allowed : Bool
  pub reason : String

pub record Authorizer : Type 1 where
  pub State : Type 0
  pub authorize : Request → State → Result Decision × State
