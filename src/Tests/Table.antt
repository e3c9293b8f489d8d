-- ===== src/Tests/Table.antt =====
-- A table that keeps every item written, of which the newest of an id is the one that it shows; its only
-- key is the id.
use mathlib.Core.Path.{subst}
use deploy_gateway.Base.{
  ◌==◌, ◌≡◌, ◌≢◌, refl, sym, ap, ◌∙◌, Bool, true, false, not, ◌&&◌, Option, none, some, List, [],
  All, ◌∷◌, ok, String, arith, ltb, eq_iff, eq_refl, if◌then◌else◌,
}
use deploy_gateway.Store.{Operation, is_running}
use deploy_gateway.Store.Dynamo.{
  Filter, by_operation_id, running_before, no_filter, Key, with_sort, hash_only, UpdateError,
  other_error, conditional_check_failed, UpdateItemInput, Table, is_key_schema_mismatch,
}
use deploy_gateway.Store.Dynamo.Expressions.{holds, perform, assign_all-id}
use deploy_gateway.Store.Dynamo.Pages.{select, oks}
use deploy_gateway.Store.Dynamo.Conditional.{
  Conditional, Met, Answer, Performed, mismatched, refused, accepted,
}
use deploy_gateway.Store.Dynamo.Keyed.{Keyed, page, OfFilter}

abbrev pub newest : String → List Operation → Option Operation
newest id [] = none
newest id (op ∷ ops) = if op.operation_id == id then some op else newest id ops

abbrev pub has_id : String → Operation → Bool
has_id id op = op.operation_id == id

abbrev pub shown : List Operation → List Operation
unfolding select
shown [] = []
shown (op ∷ ops) = op ∷ select (λ x. not (has_id op.operation_id x)) (shown ops)

pub newest-id :
    (id : String) (ops : List Operation) {op : Operation}
    → newest id ops ≡ some op
    → op.operation_id ≡ id
newest-id id [] h = cc
newest-id id (x ∷ ops) {op} h =
    let (same, equal) = eq_iff x.operation_id id in
    let later = newest-id id ops {op = op} in grind arith

abbrev pub passes_filter : Filter → Operation → Bool
passes_filter (by_operation_id id) op = has_id id op
passes_filter (running_before t) op = is_running op.status && ltb op.requested_at t
passes_filter no_filter op = true

abbrev pub mismatch : UpdateError
mismatch = record {
  kind = other_error;
  message = "ValidationException: The provided key element does not match the schema";
}

abbrev pub condition_failed : UpdateError
condition_failed = record {
  kind = conditional_check_failed;
  message = "ConditionalCheckFailedException: The conditional request failed";
}

no_mismatch : is_key_schema_mismatch condition_failed ≡ false
unfolding is_key_schema_mismatch
no_mismatch = refl

pub is_mismatch : is_key_schema_mismatch mismatch ≡ true
unfolding is_key_schema_mismatch
is_mismatch = refl

abbrev pub update_newest :
    UpdateItemInput → List Operation → Option Operation → Option UpdateError × List Operation
update_newest input ops none = (some condition_failed, ops)
update_newest input ops (some op) =
    if holds input op then (none, perform input op ∷ ops) else (some condition_failed, ops)

abbrev pub update_row : Key → UpdateItemInput → List Operation → Option UpdateError × List Operation
update_row (with_sort id t) input ops = (some mismatch, ops)
update_row (hash_only id) input ops = update_newest input ops (newest id ops)

abbrev pub table : Table
table = record {
  is_print = λ n. true;
  State = List Operation;
  StartKey = Unit {0};
  put_item = λ op ops. (none, op ∷ ops);
  update_item = λ input ops. update_row input.key input ops;
  scan = λ f start ops. (ok (oks (select (passes_filter f) (shown ops)), none), ops);
}

abbrev pub fits : Key → Bool
fits (with_sort id t) = false
fits (hash_only id) = true

abbrev pub row : Key → List Operation → Option Operation
row (with_sort id t) ops = none
row (hash_only id) ops = newest id ops

-- No assignment is to the id.
perform-id :
    (input : UpdateItemInput) (op : Operation) → (perform input op).operation_id ≡ op.operation_id
unfolding perform
perform-id input op = assign_all-id input op input.update_expression op

newest-perform :
    (id : String) (input : UpdateItemInput) (ops : List Operation) (op : Operation)
    → input.key ≡ hash_only id
    → newest id ops ≡ some op
    → holds input op ≡ true
    → Performed table row input ops (perform input op ∷ ops)
newest-perform id input ops op key h met =
    let same : op.operation_id ≡ id = newest-id id ops h in
    record {
      op = op;
      found = ap (λ k. row k ops) key ∙ h;
      met = met;
      performed =
          ap (λ k. row k (perform input op ∷ ops)) key
          ∙ rw (perform-id input op, same, eq_refl id) refl;
      others = λ k n. others same k (λ e. n (key ∙ e));
    }
  where
    others :
        op.operation_id ≡ id
        → (k : Key) → hash_only id ≢ k
        → row k (perform input op ∷ ops) ≡ row k ops
    others same (with_sort j t) n = refl
    others same (hash_only j) n =
        let (here, there) = eq_iff op.operation_id j in
        let differs : (op.operation_id ≡ j) → ⊥ = λ e. n (ap hash_only (sym same ∙ e)) in
        rw (perform-id input op) (grind arith)

pub update_newest-Answer :
    (id : String) (input : UpdateItemInput) (ops : List Operation) (o : Option Operation)
    → input.key ≡ hash_only id
    → newest id ops ≡ o
    → Answer table false fits row input ops (update_newest input ops o)
update_newest-Answer id input ops none key h =
    refused (rw key refl) (λ met. subst (Met input) (ap (λ k. row k ops) key ∙ h) met) refl
      no_mismatch refl
update_newest-Answer id input ops (some op) key h = by_status (holds input op) refl
  where
    by_status :
        (b : Bool)
        → holds input op ≡ b
        → Answer table false fits row input ops
            (if b then (none, perform input op ∷ ops) else (some condition_failed, ops))
    by_status true e = accepted (rw key refl) (newest-perform id input ops op key h e) refl
    by_status false e =
        refused (rw key refl)
          (λ met.
            let r : Met input (some op) = subst (Met input) (ap (λ k. row k ops) key ∙ h) met in cc)
          refl no_mismatch refl

abbrev pub table_conditional : Conditional table
table_conditional = record {
  may_fail = false;
  fits = fits;
  row = row;
  update_answer = λ input ops. answer input.key input ops refl;
}
  where
    answer :
        (key : Key) (input : UpdateItemInput) (ops : List Operation)
        → input.key ≡ key
        → Answer table false fits row input ops (update_row key input ops)
    answer (with_sort id t) input ops e = mismatched (rw e refl) is_mismatch refl
    answer (hash_only id) input ops e = update_newest-Answer id input ops (newest id ops) e refl

select-HasId :
    (id : String) (ops : List Operation)
    → All (λ r. (op : Operation) → r ≡ ok op → op.operation_id ≡ id) (oks (select (has_id id) ops))
unfolding select
select-HasId id [] = tt
select-HasId id (x ∷ ops) = by_test (has_id id x) refl (select-HasId id ops)
  where
    by_test :
        (b : Bool)
        → has_id id x ≡ b
        → All
            (λ r. (op : Operation) → r ≡ ok op → op.operation_id ≡ id)
            (oks (select (has_id id) ops))
        → All
            (λ r. (op : Operation) → r ≡ ok op → op.operation_id ≡ id)
            (oks (if b then x ∷ select (has_id id) ops else select (has_id id) ops))
    by_test true e rest = (
      λ op same.
          let x_is : x ≡ op = cc in
          ap (λ y. y.operation_id) (sym x_is) ∙ (eq_iff x.operation_id id).0 e,
      rest,
    )
    by_test false e rest = rest

pub passes-OfFilter :
    (f : Filter) (ops : List Operation) → OfFilter f (oks (select (passes_filter f) ops))
passes-OfFilter (by_operation_id id) ops = select-HasId id ops
passes-OfFilter (running_before t) ops = tt
passes-OfFilter no_filter ops = tt

abbrev pub table_keyed : Keyed table
table_keyed = record {
  conditional = table_conditional;
  pages = λ ops start. 0;
  scan_answer = λ f start ops. page _ none (passes-OfFilter f (shown ops)) tt refl;
  fits-with_sort = λ id t. refl;
  fits-hash_only = λ id. refl;
  row-put = λ op ops j h. refl;
  row-put_failed = λ op ops h. cc;
}
