-- ===== src/Store/Dynamo/Scans.antt =====
-- The scans of the DynamoDB store come to an end, whatever version of the items they see.
use deploy_gateway.Base.{
  ℕ, zero, suc, ◌≤◌, String, ◌≡◌, refl, ap, ◌∙◌, arith, sym, Bool, Option, none, some, List, [],
  ◌∷◌, All, Result, ok, err,
}
use deploy_gateway.Store.{Time, Operation}
use deploy_gateway.Store.Dynamo.{
  by_operation_id, running_before, Table, take_items, append_items, after_page, scanned, find_from,
  find_operation, after_list_page, listed, list_from, list_running_past_deadline, found_or_not,
}
use deploy_gateway.Store.Dynamo.Keyed.{Keyed, scan_failed, page, Fewer, fuel}

-- The call has a result, which changed nothing.
pub record Ends {S A : Type 0} (s : S) (r : Option (Result A) × S) : Type 0 where
  pub result : Result A
  pub is : r ≡ (some result, s)

-- What is found has the id.
abbrev pub HasId : String → Option Operation → Type 0
HasId id o = (op : Operation) → o ≡ some op → op.operation_id ≡ id

-- The search has a result, and if it finds an operation, that has the id.
pub record Finds {S : Type 0} (id : String) (s : S) (r : Option (Result Operation) × S)
    : Type 0 where
  pub result : Result Operation
  pub is : r ≡ (some result, s)
  pub has_id : (op : Operation) → result ≡ ok op → op.operation_id ≡ id

take_items-HasId :
    (is_print : ℕ → Bool) (id : String) (found : Option Operation) (items : List (Result Operation))
    → HasId id found
    → All (λ r. (op : Operation) → r ≡ ok op → op.operation_id ≡ id) items
    → (o : Option Operation) → take_items is_print id found items ≡ ok o
    → HasId id o
unfolding take_items
take_items-HasId is_print id found [] h all o e =
    λ op x. h op (let same : found ≡ o = cc in same ∙ x)
take_items-HasId is_print id found (err x ∷ items) h all o e = cc
take_items-HasId is_print id none (ok x ∷ items) h (has, all) o e =
    take_items-HasId is_print id (some x) items
      (λ op same. let x_is : x ≡ op = cc in ap (λ y. y.operation_id) (sym x_is) ∙ has x refl) all o
      e
take_items-HasId is_print id (some y) (ok x ∷ items) h all o e = cc

module _ (T : Table) (k : Keyed T) where
  found_or_not-Finds :
      (id : String) (s : T.State) (o : Option Operation)
      → HasId id o
      → Finds {S = T.State} id s (some (found_or_not o), s)
  unfolding found_or_not
  found_or_not-Finds id s none h = record { result = _; is = refl; has_id = λ op e. cc }
  found_or_not-Finds id s (some x) h = record {
    result = ok x;
    is = refl;
    has_id = λ op e. h op (let same : x ≡ op = cc in ap some same);
  }

  after_page-Finds :
      (fuel : ℕ) (id : String) (s : T.State) (start last : Option T.StartKey)
      (r : Result (Option Operation))
      → Fewer (k.pages s) start last
      → k.pages s start ≤ fuel
      → ((o : Option Operation) → r ≡ ok o → HasId id o)
      → ((o : Option Operation) (key : T.StartKey)
          → HasId id o
          → suc (k.pages s (some key)) ≤ fuel
          → Finds id s (find_from T fuel id o (some key) s))
      → Finds id s (after_page T (find_from T fuel id) r last s)
  unfolding after_page
  after_page-Finds fuel id s start last (err e) fewer enough has next = record {
    result = err e;
    is = refl;
    has_id = λ op x. cc;
  }
  after_page-Finds fuel id s start none (ok o) fewer enough has next =
      found_or_not-Finds id s o (has o refl)
  after_page-Finds fuel id s start (some key) (ok o) fewer enough has next =
      next o key (has o refl) (omega arith)

  find_from-Finds :
      (fuel : ℕ) (id : String) (found : Option Operation) (start : Option T.StartKey) (s : T.State)
      → HasId id found
      → suc (k.pages s start) ≤ fuel
      → Finds id s (find_from T fuel id found start s)
  unfolding find_from scanned
  find_from-Finds zero id found start s h enough = absurd (omega arith)
  find_from-Finds (suc n) id found start s h enough =
      elim (k.scan_answer (by_operation_id id) start s) [
        | scan_failed e is ↦ rw is (record { result = _; is = refl; has_id = λ op x. cc })
        | page items last all fewer is ↦ rw is (
            after_page-Finds n id s start last _ fewer (omega arith)
              (take_items-HasId T.is_print id found items h all)
              (λ o key has more. find_from-Finds n id o (some key) s has more))
      ]

  -- A search by id, in one pass more than there are pages.
  pub find_operation-Finds :
      (id : String) (s : T.State) → Finds id s (find_operation T (fuel T k s) id s)
  unfolding find_operation
  find_operation-Finds id s = find_from-Finds (fuel T k s) id none none s (λ op e. cc) (omega arith)

  after_list_page-Ends :
      (fuel : ℕ) (older_than : Time) (s : T.State) (start last : Option T.StartKey)
      (r : Result (List Operation))
      → Fewer (k.pages s) start last
      → k.pages s start ≤ fuel
      → ((ops : List Operation) (key : T.StartKey)
          → suc (k.pages s (some key)) ≤ fuel
          → Ends s (list_from T fuel older_than ops (some key) s))
      → Ends s (after_list_page T (list_from T fuel older_than) r last s)
  unfolding after_list_page
  after_list_page-Ends fuel older_than s start last (err e) fewer enough next = record {
    result = err e;
    is = refl;
  }
  after_list_page-Ends fuel older_than s start none (ok ops) fewer enough next = record {
    result = ok ops;
    is = refl;
  }
  after_list_page-Ends fuel older_than s start (some key) (ok ops) fewer enough next =
      next ops key (omega arith)

  list_from-Ends :
      (fuel : ℕ) (older_than : Time) (ops : List Operation) (start : Option T.StartKey)
      (s : T.State)
      → suc (k.pages s start) ≤ fuel
      → Ends s (list_from T fuel older_than ops start s)
  unfolding list_from listed
  list_from-Ends zero older_than ops start s enough = absurd (omega arith)
  list_from-Ends (suc n) older_than ops start s enough =
      elim (k.scan_answer (running_before older_than) start s) [
        | scan_failed e is ↦ rw is (record { result = _; is = refl })
        | page items last all fewer is ↦ rw is (
            after_list_page-Ends n older_than s start last (append_items ops items) fewer
              (omega arith) (λ xs key more. list_from-Ends n older_than xs (some key) s more))
      ]

  -- The sweep's list, in as many passes.
  pub list_running_past_deadline-Ends :
      (older_than : Time) (s : T.State)
      → Ends s (list_running_past_deadline T (fuel T k s) older_than s)
  unfolding list_running_past_deadline
  list_running_past_deadline-Ends older_than s =
      list_from-Ends (fuel T k s) older_than [] none s (omega arith)
