-- ===== src/Tests/Rows.antt =====
-- Writers that race for a row, and the store's promises, on a table of Tests/Table.antt.
use deploy_gateway.Base.{◌*◌, ◌≡◌, refl, some, [], ◌∷◌}
use deploy_gateway.Store.{second, Operation, is_running, succeeded, timeout, TerminalUpdate, finish}
use deploy_gateway.Store.Api.{IsLawful}
use deploy_gateway.Store.Dynamo.{
  Filter, by_operation_id, running_before, no_filter, Key, with_sort, hash_only, UpdateError,
  other_error, conditional_check_failed, Table, is_key_schema_mismatch, update_keys_for,
}
use deploy_gateway.Store.Dynamo.Expressions.{holds, perform}
use deploy_gateway.Store.Dynamo.Conditional.{Writer, first_fit}
use deploy_gateway.Store.Dynamo.Race.{race, race-Raced, Raced}
use deploy_gateway.Store.Dynamo.Keyed.{dynamo, rows}
use deploy_gateway.Store.Dynamo.Lawful.{dynamo-IsLawful, IsEnough}
use deploy_gateway.Manager.Start.{started_operation}
use deploy_gateway.Tests.Lab.{running_op}
use deploy_gateway.Tests.Table.{table, table_keyed, table_conditional}

dynamo-IsLawful_example :
    IsLawful (dynamo table table_keyed) (rows table table_keyed) × IsEnough table table_keyed
dynamo-IsLawful_example = dynamo-IsLawful table table_keyed

-- The watcher and the sweeper, which both found the operation running.
abbrev watcher : Writer
watcher = record {
  found = running_op;
  update = record {
    status = succeeded;
    event = "succeeded";
    error_code = "";
    error_message = "";
    completed_at = 20 * second;
  };
}

abbrev sweeper : Writer
sweeper = record {
  found = running_op;
  update = record {
    status = timeout;
    event = "timeout";
    error_code = "ROLLOUT_TIMEOUT";
    error_message = "";
    completed_at = 20 * second;
  };
}

fit_running :
    first_fit table table_conditional (update_keys_for running_op) ≡ some (hash_only "op_a1")
unfolding update_keys_for started_operation
fit_running = refl

first_wins : (race table (watcher ∷ sweeper ∷ []) (running_op ∷ [])).0 ≡ watcher.update ∷ []
unfolding race started_operation deploy_gateway.Store.Dynamo.update_found finish holds perform
first_wins = refl

race-Raced_example :
    Raced table table_conditional
      (hash_only "op_a1")
      running_op
      fit_running
      (watcher ∷ sweeper ∷ [])
      (running_op ∷ [])
      (race table (watcher ∷ sweeper ∷ []) (running_op ∷ []))
race-Raced_example =
    race-Raced table table_conditional (hash_only "op_a1") running_op fit_running
      (watcher ∷ sweeper ∷ []) (running_op ∷ []) (refl, (refl, tt)) (refl, (refl, tt))
