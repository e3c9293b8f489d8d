-- ===== src/Store.antt =====
-- internal/store/operation.go: operations, terminal updates and the `Store` interface. A time is a
-- number of nanoseconds since the Unix epoch.
pub mod Api
pub mod InMemory
pub mod Dynamo
use deploy_gateway.Base.{ℕ, String, Bool, true, false, not, Option, some, List, [], ◌∷◌, ◌++◌}

abbrev pub Time : Type 0
Time = ℕ

abbrev pub second : ℕ
second = 1_000_000_000

pub data OperationStatus : Type 0 where
  running succeeded failed timeout denied : OperationStatus

-- The texts of the string constants `StatusRunning`, …
unfoldable pub status_text : OperationStatus → String
status_text running = "running"
status_text succeeded = "succeeded"
status_text failed = "failed"
status_text timeout = "timeout"
status_text denied = "denied"

abbrev pub is_running : OperationStatus → Bool
is_running running = true
is_running _ = false

pub record AuditEvent : Type 0 where
  pub event : String
  pub at : Time

pub record Operation : Type 0 where
  pub operation_id : String
  pub repository : String
  pub repository_id : String
  pub repository_owner : String
  pub actor : String
  pub workflow : String
  pub workflow_ref : String
  pub run_id : String
  pub run_attempt : String
  pub event_name : String
  pub action : String
  pub namespace : String
  pub deployment : String
  pub container : String
  pub image : String
  pub ns_dep : String
  pub status : OperationStatus
  pub error_code : String
  pub error_message : String
  pub requested_at : Time
  pub completed_at : Option Time
  pub expires_at : ℕ
  pub events : List AuditEvent

unfoldable pub terminal : Operation → Bool
terminal o = not (is_running o.status)

pub record TerminalUpdate : Type 0 where
  pub status : OperationStatus
  pub event : String
  pub error_code : String
  pub error_message : String
  pub completed_at : Time

-- What a terminal update assigns to the stored operation; the audit event carries a time of its own.
unfoldable pub finish : TerminalUpdate → Time → Operation → Operation
finish upd at op = record op {
  status = upd.status;
  error_code = upd.error_code;
  error_message = upd.error_message;
  completed_at = some upd.completed_at;
  events = op.events ++ (record { event = upd.event; at = at } ∷ []);
}
