-- ===== src/Store/Dynamo/Keyed.antt =====
-- The store on a DynamoDB table whose only key is the operation's id.
use deploy_gateway.Base.{
  ℕ, suc, ◌≤◌, ◌⊎◌, All, String, ◌≡◌, refl, sym, Bool, true, false, Option, none, some, List, ◌==◌,
  GoError, Result, ok, err, new_error, arith, eq_iff, if◌then◌else◌,
}
use deploy_gateway.Store.{Time, Operation, TerminalUpdate, finish}
use deploy_gateway.Store.Api.{Store, View, Updated}
use deploy_gateway.Store.Dynamo.{
  Filter, by_operation_id, running_before, no_filter, hash_only, with_sort, Table, put_operation,
  get_operation, update_terminal, list_running_past_deadline, ping, update_found, update_keys_for,
}
use deploy_gateway.Store.Dynamo.Conditional.{
  Conditional, Written, Effect, first_fit, update_found-Effect,
}

abbrev pub or_exhausted : {A : Type 0} → Option (Result A) → Result A
or_exhausted none = err (new_error "out of fuel")
or_exhausted (some r) = r

abbrev pub or_exhausted_error : Option (Option GoError) → Option GoError
or_exhausted_error none = some (new_error "out of fuel")
or_exhausted_error (some e) = e

-- The store on a table, with the number of passes that a scan takes in a state.
abbrev pub new_dynamo : (T : Table) → (T.State → ℕ) → Store
new_dynamo T fuel = record {
  State = T.State;
  put_operation = put_operation T;
  get_operation = λ id s. let (r, s') = get_operation T (fuel s) id s in (or_exhausted r, s');
  update_terminal = λ id upd now s.
      let (r, s') = update_terminal T (fuel s) id upd s in (or_exhausted_error r, s');
  list_running_past_deadline = λ older_than s.
      let (r, s') = list_running_past_deadline T (fuel s) older_than s in (or_exhausted r, s');
  ping = ping T;
}

-- What the table documents of a scan: it fails, or gives a page and the key of the next. A scan is only
-- eventually consistent: the page may have an item as it was, or may lack it, and an item need not be
-- readable. Of a search by id it is known that what is found has the id.
abbrev pub OfFilter : Filter → List (Result Operation) → Type 0
OfFilter (by_operation_id id) items =
    All (λ r. (op : Operation) → r ≡ ok op → op.operation_id ≡ id) items
OfFilter (running_before t) items = Unit
OfFilter no_filter items = Unit

-- The pages behind a key are fewer than those behind the one before.
abbrev pub Fewer : {K : Type 0} → (Option K → ℕ) → Option K → Option K → Type 0
Fewer pages start none = Unit
Fewer pages start (some k) = suc (pages (some k)) ≤ pages start

module _ (T : Table) (pages : T.State → Option T.StartKey → ℕ) where
  pub data ScanAnswer (f : Filter) (start : Option T.StartKey) (s : T.State)
      (r : Result (List (Result Operation) × Option T.StartKey) × T.State) : Type 0 where
    scan_failed : (e : GoError) → r ≡ (err e, s) → ScanAnswer f start s r
    page :
        (items : List (Result Operation)) (last : Option T.StartKey)
        → OfFilter f items
        → Fewer (pages s) start last
        → r ≡ (ok (items, last), s)
        → ScanAnswer f start s r

-- A table whose only key is the operation's id, with conditional updates, and whose requests may
-- fail: a put that is accepted puts the item under its id; one that is not has changed nothing, or it was
-- made and its response was lost.
pub record Keyed (T : Table) : Type 0 where
  pub conditional : Conditional T
  pub pages : T.State → Option T.StartKey → ℕ
  pub scan_answer :
      (f : Filter) (start : Option T.StartKey) (s : T.State)
      → ScanAnswer T pages f start s (T.scan f start s)
  pub fits-with_sort : (id : String) (t : Time) → conditional.fits (with_sort id t) ≡ false
  pub fits-hash_only : (id : String) → conditional.fits (hash_only id) ≡ true
  pub row-put :
      (op : Operation) (s : T.State) (j : String)
      → (T.put_item op s).0 ≡ none
      → conditional.row (hash_only j) (T.put_item op s).1
        ≡ (if op.operation_id == j then some op else conditional.row (hash_only j) s)
  pub row-put_failed :
      (op : Operation) (s : T.State) {e : GoError}
      → (T.put_item op s).0 ≡ some e
      → ((j : String)
          → conditional.row (hash_only j) (T.put_item op s).1 ≡ conditional.row (hash_only j) s)
        ⊎ ((j : String)
            → conditional.row (hash_only j) (T.put_item op s).1
              ≡ (if op.operation_id == j then some op else conditional.row (hash_only j) s))

module _ (T : Table) (k : Keyed T) where
  -- One pass more than there are pages.
  abbrev pub fuel : T.State → ℕ
  fuel s = suc (k.pages s none)

  abbrev pub dynamo : Store
  dynamo = new_dynamo T fuel

  abbrev pub rows : View dynamo
  rows s id = k.conditional.row (hash_only id) s

  first_fit-keys :
      (op : Operation)
      → first_fit T k.conditional (update_keys_for op) ≡ some (hash_only op.operation_id)
  unfolding update_keys_for
  first_fit-keys op =
      ground
        (arith, k.fits-with_sort op.operation_id op.requested_at, k.fits-hash_only op.operation_id)

  pub update_found-Effect_id :
      (id : String) (upd : TerminalUpdate) (s : T.State) (op : Operation)
      → op.operation_id ≡ id
      → (r : Option GoError × T.State) × (update_found T upd (some (ok op)) s ≡ (some r.0, r.1))
        × Effect T k.conditional (hash_only id) upd s r
  update_found-Effect_id id upd s op h = rw (sym h) (
      update_found-Effect T k.conditional (hash_only op.operation_id) op (first_fit-keys op)
        (record { found = op; update = upd }) s refl)

  other_row :
      (id j : String) (upd : TerminalUpdate) (s s' : T.State)
      (w : Written T k.conditional.row (hash_only id) upd s s') (b : Bool)
      → (id == j) ≡ b
      → rows s' j ≡ (if b then some (finish upd upd.completed_at w.op) else rows s j)
  other_row id j upd s s' w true e = rw (sym ((eq_iff id j).0 e)) w.written
  other_row id j upd s s' w false e =
      w.others (hash_only j) λ same.
        let there : id ≡ j = cc in let equal : (id == j) ≡ true = (eq_iff id j).1 there in cc

  pub Written-Updated :
      (id : String) (upd : TerminalUpdate) (s s' : T.State)
      → Written T k.conditional.row (hash_only id) upd s s'
      → Updated id upd (rows s) (rows s')
  Written-Updated id upd s s' w = record {
    op = w.op;
    at = upd.completed_at;
    found = w.found;
    was_running = w.was_running;
    changed = λ j. other_row id j upd s s' w (id == j) refl;
  }
