-- ===== src/Store/Dynamo/Expressions.antt =====
-- What DynamoDB documents of the expressions of an update, on items that are operations, and what those of
-- internal/store/dynamo.go, UpdateTerminal, come to.
use deploy_gateway.Base.{
  String, ◌==◌, ◌≡◌, refl, ◌∙◌, arith, Bool, false, Option, none, some, List, [], ◌∷◌, ◌++◌,
  if◌then◌else◌,
}
use deploy_gateway.Base.Dict.{Dict, lookup}
use deploy_gateway.Store.{
  OperationStatus, running, succeeded, failed, timeout, denied, status_text, is_running, Operation,
  TerminalUpdate, finish,
}
use deploy_gateway.Store.Dynamo.{
  Key, AttributeValue, text_value, time_value, events_value, Operand, placeholder, list_append,
  UpdateItemInput, update_input,
}

-- A name that starts with "#" is looked up; another stands for itself.
name_of : Dict String → String → String
unfolding lookup
name_of names n = elim (lookup n names) [ some a ↦ a | none ↦ n ]

-- The attributes of an item that the expressions read.
attribute : String → Operation → Option AttributeValue
unfolding status_text
attribute a op =
    if a == "status"
    then some (text_value (status_text op.status))
    else if a == "events"
    then some (events_value op.events)
    else none

same_text : Option AttributeValue → Option AttributeValue → Bool
same_text (some (text_value a)) (some (text_value b)) = a == b
same_text _ _ = false

-- The condition holds of an item.
unfoldable pub holds : UpdateItemInput → Operation → Bool
unfolding same_text attribute name_of
holds input op =
    same_text (attribute (name_of input.attribute_names input.condition_expression.0) op)
      (lookup input.condition_expression.1 input.attribute_values)

status_of : String → OperationStatus → OperationStatus
status_of s old =
    if s == "running"
    then running
    else if s == "succeeded"
    then succeeded
    else if s == "failed"
    then failed
    else if s == "timeout"
    then timeout
    else if s == "denied"
    then denied
    else old

-- An item after the assignment of a value to an attribute.
assign : String → AttributeValue → Operation → Operation
unfolding status_of
assign a (text_value v) op =
    if a == "status"
    then record op { status = status_of v op.status }
    else if a == "error_code"
    then record op { error_code = v }
    else if a == "error_message"
    then record op { error_message = v }
    else op
assign a (time_value t) op = if a == "completed_at" then record op { completed_at = some t } else op
assign a (events_value es) op = if a == "events" then record op { events = es } else op

append_values : Option AttributeValue → Option AttributeValue → Option AttributeValue
append_values (some (events_value es)) (some (events_value fs)) = some (events_value (es ++ fs))
append_values _ _ = none

or_default : Option AttributeValue → Option AttributeValue → Option AttributeValue
or_default (some v) d = some v
or_default none d = d

-- An operand, of the item as it was before the update.
evaluate : UpdateItemInput → Operation → Operand → Option AttributeValue
unfolding append_values or_default attribute name_of
evaluate input op (placeholder v) = lookup v input.attribute_values
evaluate input op (list_append a default v) =
    append_values
      (or_default (attribute (name_of input.attribute_names a) op)
        (lookup default input.attribute_values))
      (lookup v input.attribute_values)

unfoldable pub assign_all :
    UpdateItemInput → Operation → List (String × Operand) → Operation → Operation
unfolding evaluate assign
assign_all input before [] op = op
assign_all input before ((n, operand) ∷ rest) op =
    assign_all input before rest (elim (evaluate input before operand) [
      | some v ↦ assign (name_of input.attribute_names n) v op
      | none ↦ op
    ])

-- The item after the update.
unfoldable pub perform : UpdateItemInput → Operation → Operation
unfolding assign_all
perform input op = assign_all input op input.update_expression op

assign-id :
    (a : String) (v : AttributeValue) (op : Operation)
    → (assign a v op).operation_id ≡ op.operation_id
unfolding assign
assign-id a (text_value v) op = ground arith
assign-id a (time_value t) op = ground arith
assign-id a (events_value es) op = ground arith

-- No assignment is to the id.
pub assign_all-id :
    (input : UpdateItemInput) (before : Operation) (actions : List (String × Operand))
    (op : Operation)
    → (assign_all input before actions op).operation_id ≡ op.operation_id
unfolding assign_all
assign_all-id input before [] op = refl
assign_all-id input before ((n, operand) ∷ rest) op =
    by_value (evaluate input before operand) (λ x. assign_all-id input before rest x)
  where
    by_value :
        (o : Option AttributeValue)
        → ((x : Operation) → (assign_all input before rest x).operation_id ≡ x.operation_id)
        → (assign_all input before rest (elim o as (λ _. Operation) [
          | some v ↦ assign (name_of input.attribute_names n) v op
          | none ↦ op
        ])).operation_id
          ≡ op.operation_id
    by_value none ih = ih op
    by_value (some v) ih = ih _ ∙ assign-id (name_of input.attribute_names n) v op

running_text : (s : OperationStatus) → (status_text s == "running") ≡ is_running s
unfolding status_text
running_text running = refl
running_text succeeded = refl
running_text failed = refl
running_text timeout = refl
running_text denied = refl

-- The condition holds just of an operation that is running.
pub holds-update_input :
    (key : Key) (upd : TerminalUpdate) (op : Operation)
    → holds (update_input key upd) op ≡ is_running op.status
unfolding holds update_input lookup status_text
holds-update_input key upd op = running_text op.status

status_of-status_text : (s old : OperationStatus) → status_of (status_text s) old ≡ s
unfolding status_of status_text
status_of-status_text running old = refl
status_of-status_text succeeded old = refl
status_of-status_text failed old = refl
status_of-status_text timeout old = refl
status_of-status_text denied old = refl

-- The update assigns what a terminal update has, and appends its event.
pub perform-update_input :
    (key : Key) (upd : TerminalUpdate) (op : Operation)
    → perform (update_input key upd) op ≡ finish upd upd.completed_at op
unfolding perform update_input lookup finish assign_all evaluate assign
perform-update_input key upd op = rw (status_of-status_text upd.status op.status) refl
