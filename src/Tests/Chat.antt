-- ===== src/Tests/Chat.antt =====
-- Messages and a Bot API that is busy at first.
use deploy_gateway.Base.{
  ℕ, ◌+◌, ◌*◌, ◌≡◌, refl, true, false, some, ok, arith, eqb, leb, min, if◌then◌else◌,
}
use deploy_gateway.Base.Text.{strip_prefix}
use deploy_gateway.Manager.Start.{started_operation}
use deploy_gateway.Base.StateMonad.{◌>>=◌}
use deploy_gateway.Store.{second, Operation, failed}
use deploy_gateway.Notify.Format.{esc, render}
use deploy_gateway.Notify.Format.Laws.{Shows, esc-Shows}
use deploy_gateway.Notify.Transport.{ApiResponse, Api, max_attempts, send_message, call, send}
use deploy_gateway.Notify.Transport.Laws.{Tried, Accepted, call-Accepted}
use deploy_gateway.Notify.Transport.Clock.{Bounded}
use deploy_gateway.Notify.Notifier.{found_by, start_message, resolve_message}
use deploy_gateway.Notify.Notifier.Laws.{Landed, start_message-Landed}
use deploy_gateway.Notify.Notifier.Waits.{Edits, resolve_message-Edits}
use deploy_gateway.Tests.Lab.{running_op}

abbrev pub answer : ApiResponse
answer = record { ok = true; message_id = 44; description = ""; retry_after = 0 }

-- The first attempt meets a rate limit; an attempt takes a second.
abbrev busy_api : Api
busy_api = record {
  State = ℕ;
  clock = λ h. h;
  elapse = λ d h. h + d;
  once = λ payload h. (
    if eqb h 0 then ok (record answer { ok = false; retry_after = 3 }, 429) else ok (answer, 200),
    h + second,
  );
}

call_retries : (call busy_api (30 * second) (send_message "-1" "text") 0).1 ≡ 5 * second
unfolding call ◌>>=◌
call_retries = refl

abbrev failed_op : Operation
failed_op = record running_op {
  status = failed;
  error_code = "ROLLOUT_FAILED";
  error_message = "a < b & c";
  completed_at = some (100 * second + 600_000_000);
}

esc-Shows_example : Shows (esc "a < b & c") "a < b & c"
esc-Shows_example = esc-Shows "a < b & c"

call-Accepted_example :
    Tried busy_api
      (send_message "-1" "text")
      max_attempts
      0
      (call busy_api (30 * second) (send_message "-1" "text") 0).1
    × ((resp : ApiResponse)
        → (call busy_api (30 * second) (send_message "-1" "text") 0).0 ≡ ok resp
        → Accepted busy_api (send_message "-1" "text") resp)
call-Accepted_example = call-Accepted busy_api (30 * second) (send_message "-1" "text") 0

start_message-Landed_example : Landed busy_api "-1" running_op 44
unfolding start_message send call ◌>>=◌
start_message-Landed_example =
    start_message-Landed busy_api "-1" running_op 0 44 refl (λ e. ground arith)

abbrev lag : ℕ
lag = 100_000_000

-- An attempt takes twenty seconds, or up to the deadline of a context that ends half a minute in, and a
-- sleep wakes up late.
abbrev slow_api : Api
slow_api = record busy_api {
  elapse = λ d h. h + d + lag;
  once = λ payload h. (
    if eqb h 0 then ok (record answer { ok = false; retry_after = 3 }, 429) else ok (answer, 200),
    if leb h (30 * second) then min (h + 20 * second) (30 * second) else h,
  );
}

slow_api-Bounded : Bounded slow_api (30 * second) lag
slow_api-Bounded = record {
  elapse-clock = λ d h. omega arith;
  once-clock = λ payload h t late early. ground arith;
}

resolve_message-Edits_example :
    Landed slow_api "-1" running_op 44
    × Edits slow_api "-1" failed_op 44 (100 * second) (
        resolve_message slow_api "-1" failed_op
          (found_by (start_message slow_api "-1" running_op 0).1 44 (2 * second))
          (100 * second))
unfolding start_message send call ◌>>=◌
resolve_message-Edits_example =
    resolve_message-Edits slow_api "-1" running_op failed_op 0 (2 * second) lag 0 (100 * second) 44
      slow_api-Bounded (omega arith) (omega arith) refl (λ e. ground arith)

render_failed :
    render failed_op
    ≡ "❌ <b>restart</b> · prod/web — ROLLOUT_FAILED\na &lt; b &amp; c\n@ada · <a href=\"https://github.com/tuncloud/backend/actions/runs/9/attempts/1\">run #9</a>\n1m31s · <code>op_a1</code>"
unfolding render started_operation strip_prefix
render_failed = refl
