-- ===== src/Api/Responses.antt =====
-- internal/api/server.go: the answers of the handlers, and what they put into the store and ask.
use deploy_gateway.Base.{
  ℕ, String, ◌==◌, Option, none, some, [], ◌∷◌, Result, ok, err, is_not_found, is_ambiguous,
  if◌then◌else◌,
}
use deploy_gateway.Store.{Time, Operation, denied, status_text}
use deploy_gateway.Authn.{GitHubIdentity}
use deploy_gateway.Authz.{Request}
use deploy_gateway.Manager.Start.{
  err_ambiguous_container, started_operation, Outcome, returns, panics,
}
use deploy_gateway.Api.{
  recovered, error_body, failed_operation, started_body, operation_body, Response,
}

-- `writeError`
abbrev pub write_error : ℕ → String → String → Response
write_error status code message = record { status = status; body = error_body code message }

-- The row of `recordDenied`
unfoldable pub denied_operation :
    String → GitHubIdentity → String → String → String → String → String → String → Time → Operation
unfolding started_operation
denied_operation ulid id action namespace deployment container image reason t =
    record (started_operation ulid id action namespace deployment container image t) {
      status = denied;
      error_code = "DENIED";
      error_message = reason;
      events = record { event = "DENIED"; at = t } ∷ [];
    }

-- `errBody`
unfoldable pub err_body : Operation → Option (String × String)
err_body op = if op.error_code == "" then none else some (op.error_code, op.error_message)

-- The answer to what `Restart` returned, and to what `Rollout` returned.
unfoldable pub restart_response : Outcome → Response
restart_response panics = record { status = 500; body = recovered }
restart_response (returns op_id none) = record { status = 202; body = started_body op_id }
restart_response (returns op_id (some e)) =
    if op_id == ""
    then write_error 503 "STORE_UNAVAILABLE" "operation could not be recorded"
    else record { status = 502; body = failed_operation op_id }

unfoldable pub rollout_response : Outcome → Response
unfolding restart_response
rollout_response panics = record { status = 500; body = recovered }
rollout_response (returns op_id none) = record { status = 202; body = started_body op_id }
rollout_response (returns op_id (some e)) =
    if is_ambiguous e
    then write_error 400 "AMBIGUOUS_CONTAINER" err_ambiguous_container.message
    else restart_response (returns op_id (some e))

unfoldable pub operation_response : Result Operation → Response
unfolding err_body
operation_response (err e) =
    if is_not_found e
    then write_error 404 "NOT_FOUND" "operation not found"
    else write_error 503 "STORE_UNAVAILABLE" "operation store unavailable"
operation_response (ok op) = record {
  status = 200;
  body =
      operation_body op.operation_id (status_text op.status) op.action op.namespace op.deployment
        (err_body op);
}

-- What `authorize` asks: the request's identity, with the action and its target.
abbrev pub question : GitHubIdentity → String → String → String → Request
question id action namespace deployment = record {
  repository = id.repository;
  action = action;
  namespace = namespace;
  deployment = deployment;
  ref = id.ref;
}
