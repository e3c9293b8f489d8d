-- ===== src/Store/InMemory.antt =====
-- internal/store/inmem.go: a map from operation ids to operations, and the recording wrapper. Each
-- method runs under the mutex, so a call is one step. Go ranges over a map in any order; the list of
-- running operations is in the order of insertion here.
pub mod Laws
use deploy_gateway.Base.{
  String, Bool, ◌&&◌, Option, none, some, List, [], ◌∷◌, ◌++◌, GoError, Result, ok, err, not_found,
  already_terminal, ltb, if◌then◌else◌,
}
use deploy_gateway.Base.Dict
use deploy_gateway.Base.Dict.{Dict}
use deploy_gateway.Store.{Time, Operation, is_running, TerminalUpdate, finish}
use deploy_gateway.Store.Api.{Store}

abbrev pub Ops : Type 0
Ops = Dict Operation

abbrev pub err_not_found : GoError
err_not_found = record { kind = not_found; message = "operation not found" }

abbrev pub err_already_terminal : GoError
err_already_terminal = record { kind = already_terminal; message = "operation already terminal" }

unfoldable pub put_operation : Operation → Ops → Option GoError × Ops
put_operation op ops = (none, Dict.insert op.operation_id op ops)

unfoldable pub get_operation : String → Ops → Result Operation × Ops
get_operation id ops =
    (elim (Dict.lookup id ops) [ none ↦ err err_not_found | some op ↦ ok op ], ops)

update_found : String → TerminalUpdate → Time → Ops → Option Operation → Option GoError × Ops
update_found id upd now ops none = (some err_not_found, ops)
update_found id upd now ops (some op) =
    if is_running op.status
    then (none, Dict.insert id (finish upd now op) ops)
    else (some err_already_terminal, ops)

unfoldable pub update_terminal : String → TerminalUpdate → Time → Ops → Option GoError × Ops
unfolding update_found
update_terminal id upd now ops = update_found id upd now ops (Dict.lookup id ops)

abbrev is_overdue : Time → Operation → Bool
is_overdue older_than op = is_running op.status && ltb op.requested_at older_than

overdue : Time → Ops → List Operation
overdue older_than [] = []
overdue older_than ((id, op) ∷ ops) =
    let rest = overdue older_than ops in if is_overdue older_than op then op ∷ rest else rest

unfoldable pub list_running_past_deadline : Time → Ops → Result (List Operation) × Ops
unfolding overdue
list_running_past_deadline older_than ops = (ok (overdue older_than ops), ops)

unfoldable pub ping : Ops → Option GoError × Ops
ping ops = (none, ops)

abbrev pub new_in_memory : Store
new_in_memory = record {
  State = Ops;
  put_operation = put_operation;
  get_operation = get_operation;
  update_terminal = update_terminal;
  list_running_past_deadline = list_running_past_deadline;
  ping = ping;
}

pub record Recording : Type 0 where
  pub ops : Ops
  pub puts : List Operation

-- `RecordingStore.PutOperation`; the other methods are those of the wrapped store.
unfoldable pub recording_put : Operation → Recording → Option GoError × Recording
unfolding put_operation
recording_put op r =
    let (e, ops) = put_operation op r.ops in (e, record { ops = ops; puts = r.puts ++ (op ∷ []) })
