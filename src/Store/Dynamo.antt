-- ===== src/Store/Dynamo.antt =====
-- internal/store/dynamo.go: the store on a DynamoDB table. The table is a parameter, the interface
-- `dynamoAPI` with the marshalling of items; its filters are named, and it evaluates them.
pub mod Pages
pub mod Conditional
pub mod Race
pub mod Expressions
pub mod Keyed
pub mod Scans
pub mod Lawful
use deploy_gateway.Base.{
  ℕ, zero, suc, String, ◌<>◌, Bool, true, false, ◌&&◌, Option, none, some, List, [], ◌∷◌, ◌++◌,
  GoError, Result, ok, err, new_error, wrap, eqb, if◌then◌else◌,
}
use deploy_gateway.Base.Text.{contains, quote}
use deploy_gateway.Base.Dict.{Dict}
use deploy_gateway.Store.{Time, running, status_text, AuditEvent, Operation, TerminalUpdate}
use deploy_gateway.Store.InMemory.{err_not_found, err_already_terminal}

-- The two filters of a scan, and the scan of `Ping`, which has none.
pub data Filter : Type 0 where
  by_operation_id : String → Filter
  running_before : Time → Filter
  no_filter : Filter

-- The keys that an update tries: of a table with a sort key, and of one without.
pub data Key : Type 0 where
  with_sort : String → Time → Key
  hash_only : String → Key

-- `types.ResourceNotFoundException`, `types.ConditionalCheckFailedException`, or another error
pub data UpdateErrorKind : Type 0 where
  resource_not_found conditional_check_failed other_error : UpdateErrorKind

pub record UpdateError : Type 0 where
  pub kind : UpdateErrorKind
  pub message : String

-- The values of an update's placeholders; a time stands for its text.
pub data AttributeValue : Type 0 where
  text_value : String → AttributeValue
  time_value : Time → AttributeValue
  events_value : List AuditEvent → AttributeValue

-- What SET assigns: a placeholder, or `list_append(if_not_exists(attribute, default), value)`.
pub data Operand : Type 0 where
  placeholder : String → Operand
  list_append : (attribute default value : String) → Operand

-- `dynamodb.UpdateItemInput`, with the expressions as trees: the assignments of SET, and the two sides of
-- the condition's equation.
pub record UpdateItemInput : Type 0 where
  pub key : Key
  pub update_expression : List (String × Operand)
  pub condition_expression : String × String
  pub attribute_names : Dict String
  pub attribute_values : Dict AttributeValue

-- The input of `UpdateTerminal` for a key.
unfoldable pub update_input : Key → TerminalUpdate → UpdateItemInput
unfolding status_text
update_input key upd = record {
  key = key;
  update_expression =
      ("#st", placeholder ":st")
      ∷ ("events", list_append "events" ":empty" ":ev")
      ∷ ("error_code", placeholder ":ec")
      ∷ ("error_message", placeholder ":em")
      ∷ ("completed_at", placeholder ":ca")
      ∷ [];
  condition_expression = ("#st", ":running");
  attribute_names = ("#st", "status") ∷ [];
  attribute_values =
      (":st", text_value (status_text upd.status))
      ∷ (":running", text_value (status_text running))
      ∷ (":ev", events_value (record { event = upd.event; at = upd.completed_at } ∷ []))
      ∷ (":empty", events_value [])
      ∷ (":ec", text_value upd.error_code)
      ∷ (":em", text_value upd.error_message)
      ∷ (":ca", time_value upd.completed_at)
      ∷ [];
}

-- An item is what `UnmarshalMap` makes of it. `is_print` is the table of `strconv.IsPrint`, for `%q`.
pub record Table : Type 1 where
  pub is_print : ℕ → Bool
  pub State : Type 0
  pub StartKey : Type 0
  pub put_item : Operation → State → Option GoError × State
  pub update_item : UpdateItemInput → State → Option UpdateError × State
  pub scan :
      Filter → Option StartKey → State → Result (List (Result Operation) × Option StartKey) × State

-- What `err` is before the first update.
abbrev pub no_error : UpdateError
no_error = record { kind = other_error; message = "" }

-- `updateKeysFor`; a time that is not set is 0.
unfoldable pub update_keys_for : Operation → List Key
update_keys_for op =
    if eqb op.requested_at 0
    then hash_only op.operation_id ∷ []
    else with_sort op.operation_id op.requested_at ∷ hash_only op.operation_id ∷ []

unfoldable pub is_key_schema_mismatch : UpdateError → Bool
unfolding contains
is_key_schema_mismatch e =
    contains e.message "ValidationException"
    && contains e.message "key element does not match the schema"

-- What the last error of an update means.
unfoldable pub update_error : UpdateError → GoError
update_error e = elim e.kind [
  | resource_not_found ↦ err_not_found
  | conditional_check_failed ↦ err_already_terminal
  | other_error ↦ new_error ("update: " <> e.message)
]

-- The items of one page of `findOperation`, behind what the pages before had.
unfoldable pub take_items :
    (ℕ → Bool) → String → Option Operation → List (Result Operation) → Result (Option Operation)
unfolding quote
take_items is_print id found [] = ok found
take_items is_print id found (err e ∷ items) = err (wrap "unmarshal operation" e)
take_items is_print id none (ok op ∷ items) = take_items is_print id (some op) items
take_items is_print id (some x) (ok op ∷ items) =
    err (new_error ("scan by operation_id: duplicate operation_id " <> quote is_print id))

-- The items of one page of `ListRunningPastDeadline`.
unfoldable pub append_items : List Operation → List (Result Operation) → Result (List Operation)
append_items ops [] = ok ops
append_items ops (err e ∷ items) = err (wrap "unmarshal scan item" e)
append_items ops (ok op ∷ items) = append_items (ops ++ (op ∷ [])) items

found_or_not : Option Operation → Result Operation
found_or_not none = err err_not_found
found_or_not (some op) = ok op

-- `NewDynamo`, over what the SDK's configuration comes to: the client's configuration and the table
unfoldable pub new_dynamo_store {ℓ} : {C : Type ℓ} → Result C → String → Result (C × String)
new_dynamo_store (err e) table = err (wrap "aws config" e)
new_dynamo_store (ok cfg) table = ok (cfg, table)

abbrev pub put_error : Option GoError → Option GoError
put_error none = none
put_error (some e) = some (wrap "put" e)

module _ (T : Table) where
  -- `PutOperation`
  unfoldable pub put_operation : Operation → T.State → Option GoError × T.State
  put_operation op s = let (e, s') = T.put_item op s in (put_error e, s')

  -- After a page: what was found so far, and the key of the next page. `none` means that the fuel,
  -- the number of pages, ran out.
  after_page :
      (Option Operation → Option T.StartKey → T.State → Option (Result Operation) × T.State)
      → Result (Option Operation)
      → Option T.StartKey
      → T.State
      → Option (Result Operation) × T.State
  unfolding found_or_not
  after_page next (err e) start s = (some (err e), s)
  after_page next (ok found) none s = (some (found_or_not found), s)
  after_page next (ok found) (some key) s = next found (some key) s

  scanned :
      String
      → Option Operation
      → (Option Operation → Option T.StartKey → T.State → Option (Result Operation) × T.State)
      → Result (List (Result Operation) × Option T.StartKey)
      → T.State
      → Option (Result Operation) × T.State
  unfolding after_page take_items
  scanned id found next (err e) s = (some (err (wrap "scan by operation_id" e)), s)
  scanned id found next (ok (items, last)) s =
      after_page next (take_items T.is_print id found items) last s

  find_from :
      ℕ
      → String
      → Option Operation
      → Option T.StartKey
      → T.State
      → Option (Result Operation) × T.State
  unfolding scanned
  find_from zero id found start s = (none, s)
  find_from (suc fuel) id found start s =
      let (page, s') = T.scan (by_operation_id id) start s in
      scanned id found (find_from fuel id) page s'

  -- `findOperation`
  unfoldable pub find_operation : ℕ → String → T.State → Option (Result Operation) × T.State
  unfolding find_from
  find_operation fuel id s = find_from fuel id none none s

  -- `GetOperation`
  unfoldable pub get_operation : ℕ → String → T.State → Option (Result Operation) × T.State
  get_operation fuel id s = find_operation fuel id s

  after_list_page :
      (List Operation → Option T.StartKey → T.State → Option (Result (List Operation)) × T.State)
      → Result (List Operation)
      → Option T.StartKey
      → T.State
      → Option (Result (List Operation)) × T.State
  after_list_page next (err e) start s = (some (err e), s)
  after_list_page next (ok ops) none s = (some (ok ops), s)
  after_list_page next (ok ops) (some key) s = next ops (some key) s

  listed :
      List Operation
      → (List Operation → Option T.StartKey → T.State → Option (Result (List Operation)) × T.State)
      → Result (List (Result Operation) × Option T.StartKey)
      → T.State
      → Option (Result (List Operation)) × T.State
  unfolding after_list_page append_items
  listed ops next (err e) s = (some (err (wrap "scan" e)), s)
  listed ops next (ok (items, last)) s = after_list_page next (append_items ops items) last s

  list_from :
      ℕ
      → Time
      → List Operation
      → Option T.StartKey
      → T.State
      → Option (Result (List Operation)) × T.State
  unfolding listed
  list_from zero older_than ops start s = (none, s)
  list_from (suc fuel) older_than ops start s =
      let (page, s') = T.scan (running_before older_than) start s in
      listed ops (list_from fuel older_than) page s'

  -- `ListRunningPastDeadline`
  unfoldable pub list_running_past_deadline :
      ℕ → Time → T.State → Option (Result (List Operation)) × T.State
  unfolding list_from
  list_running_past_deadline fuel older_than s = list_from fuel older_than [] none s

  after_update :
      (UpdateError → T.State → Option GoError × T.State)
      → Option UpdateError × T.State
      → Option GoError × T.State
  unfolding update_error is_key_schema_mismatch
  after_update next (none, s) = (none, s)
  after_update next (some x, s) =
      if is_key_schema_mismatch x then next x s else (some (update_error x), s)

  -- One key after the other, as long as the table has another schema.
  update_keys : TerminalUpdate → UpdateError → List Key → T.State → Option GoError × T.State
  unfolding after_update update_error update_input
  update_keys upd last [] s = (some (update_error last), s)
  update_keys upd last (key ∷ keys) s =
      after_update (λ x. update_keys upd x keys) (T.update_item (update_input key upd) s)

  unfoldable pub update_found :
      TerminalUpdate → Option (Result Operation) → T.State → Option (Option GoError) × T.State
  unfolding update_keys update_keys_for
  update_found upd none s = (none, s)
  update_found upd (some (err e)) s = (some (some e), s)
  update_found upd (some (ok op)) s =
      let (e, s') = update_keys upd no_error (update_keys_for op) s in (some e, s')

  -- `UpdateTerminal`
  unfoldable pub update_terminal :
      ℕ → String → TerminalUpdate → T.State → Option (Option GoError) × T.State
  unfolding update_found
  update_terminal fuel id upd s =
      let (found, s') = find_operation fuel id s in update_found upd found s'

  unfoldable pub ping : T.State → Option GoError × T.State
  ping s =
      let (page, s') = T.scan no_filter none s in (elim page [ ok _ ↦ none | err e ↦ some e ], s')
