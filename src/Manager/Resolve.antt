-- ===== src/Manager/Resolve.antt =====
-- internal/operation/manager.go: `resolve`, the only place that writes a terminal status, and the three
-- methods that call it.
use deploy_gateway.Base.{ℕ, String, Option, none, some, GoError}
use deploy_gateway.Base.StateMonad.{pure, ◌>>=◌}
use deploy_gateway.Store.{Time, Operation, succeeded, failed, timeout, TerminalUpdate}
use deploy_gateway.Store.Api.{Store}
use deploy_gateway.Manager.Platform.{Platform}
use deploy_gateway.Manager.World.{Config, M, on_store, now, notify_resolved}

-- `applyTerminal`: the operation that the notification shows
unfoldable pub apply_terminal : Operation → TerminalUpdate → Operation
apply_terminal op upd = record op {
  status = upd.status;
  error_code = upd.error_code;
  error_message = upd.error_message;
  completed_at = some upd.completed_at;
}

abbrev pub failed_update : String → String → Time → TerminalUpdate
failed_update code message at = record {
  status = failed;
  event = "FAILED";
  error_code = code;
  error_message = message;
  completed_at = at;
}

abbrev pub succeeded_update : Time → TerminalUpdate
succeeded_update at = record {
  status = succeeded;
  event = "SUCCEEDED";
  error_code = "";
  error_message = "";
  completed_at = at;
}

abbrev pub timeout_update : String → Time → TerminalUpdate
timeout_update message at = record {
  status = timeout;
  event = "TIMEOUT";
  error_code = "TIMEOUT";
  error_message = message;
  completed_at = at;
}

module _ (S : Store) (P : Platform) (c : Config) where
  unfoldable pub notify_winner :
      Operation → Option ℕ → TerminalUpdate → Option GoError → M S P (Unit {0})
  unfolding apply_terminal
  notify_winner op msg upd (some e) = pure tt
  notify_winner op msg upd none = notify_resolved S P c (apply_terminal op upd) msg

  -- `resolve`: who loses the race for the terminal write sends nothing.
  unfoldable pub resolve : Operation → Option ℕ → TerminalUpdate → M S P (Unit {0})
  unfolding notify_winner
  resolve op msg upd = do
    t ← now S P
    refused ← on_store S P (S.update_terminal op.operation_id upd t)
    notify_winner op msg upd refused

  -- `failOperation`
  unfoldable pub fail_operation : Operation → Option ℕ → String → String → M S P (Unit {0})
  fail_operation op msg code message = do t ← now S P; resolve op msg (failed_update code message t)

  -- `completeOperation`; the reason is only logged.
  unfoldable pub complete_operation : Operation → Option ℕ → M S P (Unit {0})
  complete_operation op msg = do t ← now S P; resolve op msg (succeeded_update t)

  -- `timeoutOperation`
  unfoldable pub timeout_operation : Operation → Option ℕ → String → M S P (Unit {0})
  timeout_operation op msg message = do t ← now S P; resolve op msg (timeout_update message t)
