-- ===== src/Store/Dynamo/Lawful.antt =====
-- The DynamoDB store keeps the promises of the interface.
use deploy_gateway.Base.{
  String, ◌≡◌, refl, sym, ap, ◌∙◌, inl, inr, ◌⊎◌, Option, none, some, List, ◌==◌, GoError, Result,
  ok, err, arith, if◌then◌else◌,
}
use deploy_gateway.Store.{Time, Operation, TerminalUpdate}
use deploy_gateway.Store.Api.{IsLawful, Updated}
use deploy_gateway.Store.Dynamo.{
  no_filter, put_error, Table, put_operation, get_operation, update_terminal,
  list_running_past_deadline, ping, update_found,
}
use deploy_gateway.Store.Dynamo.Conditional.{declined, went_wrong, unheard, made}
use deploy_gateway.Store.Dynamo.Keyed.{
  or_exhausted_error, Keyed, scan_failed, page, fuel, dynamo, rows, update_found-Effect_id,
  Written-Updated,
}
use deploy_gateway.Store.Dynamo.Scans.{find_operation-Finds, list_running_past_deadline-Ends}

module _ (T : Table) (k : Keyed T) where
  -- What a terminal update comes to: the search or the write failed and nothing changed, or the row of the
  -- id has been updated, which was reported or not.
  data Ended (id : String) (upd : TerminalUpdate) (s : T.State)
      (r : Option (Option GoError) × T.State) : Type 0 where
    failed : {e : GoError} → r ≡ (some (some e), s) → Ended id upd s r
    unreported :
        {e : GoError} {s' : T.State}
        → r ≡ (some (some e), s')
        → Updated id upd (rows T k s) (rows T k s')
        → Ended id upd s r
    updated :
        {s' : T.State}
        → r ≡ (some none, s')
        → Updated id upd (rows T k s) (rows T k s')
        → Ended id upd s r

  update_found-Ended :
      (id : String) (upd : TerminalUpdate) (s : T.State) (found : Result Operation)
      → ((op : Operation) → found ≡ ok op → op.operation_id ≡ id)
      → Ended id upd s (update_found T upd (some found) s)
  unfolding update_found
  update_found-Ended id upd s (err e) has_id = failed refl
  update_found-Ended id upd s (ok op) has_id =
      let (r, same, effect) = update_found-Effect_id T k id upd s op (has_id op refl) in
      rw same (elim effect [
        | declined _ e ↦ rw e (failed refl)
        | went_wrong _ e ↦ rw e (failed refl)
        | unheard {s' = s'} _ w e ↦ rw e (unreported refl (Written-Updated T k id upd s s' w))
        | made {s'} w e ↦ rw e (updated refl (Written-Updated T k id upd s s' w))
      ])

  update_terminal-Ended :
      (id : String) (upd : TerminalUpdate) (s : T.State)
      → Ended id upd s (update_terminal T (fuel T k s) id upd s)
  unfolding update_terminal
  update_terminal-Ended id upd s =
      let f = find_operation-Finds T k id s in
      rw f.is (update_found-Ended id upd s f.result f.has_id)

  put-row :
      (op : Operation) (s : T.State) (j : String)
      → (put_operation T op s).0 ≡ none
      → rows T k (put_operation T op s).1 j
        ≡ (if op.operation_id == j then some op else rows T k s j)
  unfolding put_operation
  put-row op s j h = k.row-put op s j (ground arith)

  put_error-some :
      (o : Option GoError) {e : GoError} → put_error o ≡ some e → (x : GoError) × (o ≡ some x)
  put_error-some none h = cc
  put_error-some (some x) h = (x, refl)

  put_failed :
      (op : Operation) (s : T.State) {e : GoError}
      → (put_operation T op s).0 ≡ some e
      → ((j : String) → rows T k (put_operation T op s).1 j ≡ rows T k s j)
        ⊎ ((j : String)
            → rows T k (put_operation T op s).1 j
              ≡ (if op.operation_id == j then some op else rows T k s j))
  unfolding put_operation
  put_failed op s h = k.row-put_failed op s (put_error-some (T.put_item op s).0 h).1

  error_of :
      {r : Option (Option GoError) × T.State} {s' : T.State} {e : GoError}
      → r ≡ (some none, s')
      → or_exhausted_error r.0 ≡ some e
      → ⊥
  error_of h k = let g = ap (λ x. or_exhausted_error x.0) (sym h) ∙ k in cc

  -- Every scan comes to its last page, or fails, within the passes given: no call runs out of them.
  pub record IsEnough : Type 0 where
    pub get_ends :
        (id : String) (s : T.State)
        → (x : Result Operation) × ((get_operation T (fuel T k s) id s).0 ≡ some x)
    pub list_ends :
        (older_than : Time) (s : T.State)
        → (x : Result (List Operation)) × ((list_running_past_deadline T
              (fuel T k s)
              older_than
              s).0
            ≡ some x)
    pub update_ends :
        (id : String) (upd : TerminalUpdate) (s : T.State)
        → (x : Option GoError) × ((update_terminal T (fuel T k s) id upd s).0 ≡ some x)

  dynamo-IsEnough : IsEnough
  unfolding get_operation
  dynamo-IsEnough = record {
    get_ends = λ id s. let f = find_operation-Finds T k id s in (f.result, ap (λ r. r.0) f.is);
    list_ends = λ older_than s.
        let f = list_running_past_deadline-Ends T k older_than s in (f.result, ap (λ r. r.0) f.is);
    update_ends = λ id upd s. elim (update_terminal-Ended id upd s) [
      | failed {e = x} e ↦ (some x, ap (λ r. r.0) e)
      | unreported {e = x} e u ↦ (some x, ap (λ r. r.0) e)
      | updated e u ↦ (none, ap (λ r. r.0) e)
    ];
  }

  lawful_calls : IsLawful (dynamo T k) (rows T k)
  unfolding get_operation ping
  lawful_calls = record {
    view-put = put-row;
    view-put_failed = put_failed;
    view-get = λ id s j. ap (λ r. rows T k r.1 j) (find_operation-Finds T k id s).is;
    view-update = λ id upd now s h. elim (update_terminal-Ended id upd s) [
      | failed {e = x} e ↦ absurd (let g : some x ≡ none = rw e at h in cc)
      | unreported {e = x} e u ↦ absurd (let g : some x ≡ none = rw e at h in cc)
      | updated e u ↦ rw e u
    ];
    view-update_failed = λ id upd now s h. elim (update_terminal-Ended id upd s) [
      | failed e ↦ rw e (inl (λ j. refl))
      | unreported e u ↦ rw e (inr u)
      | updated e u ↦ absurd (error_of e h)
    ];
    view-list = λ older_than s j.
        ap (λ r. rows T k r.1 j) (list_running_past_deadline-Ends T k older_than s).is;
    view-ping = λ s j. elim (k.scan_answer no_filter none s) [
      | scan_failed e h ↦ rw h refl
      | page items last all fewer h ↦ rw h refl
    ];
  }

  -- Over a table whose only key is the operation's id, with conditional updates, and in which requests
  -- may fail, before a write is made or after it, and scans may show items as they were or lack them, the
  -- DynamoDB store keeps every promise of the interface, and no call of it needs more passes of a scan
  -- than there are pages, and one.
  pub dynamo-IsLawful : IsLawful (dynamo T k) (rows T k) × IsEnough
  dynamo-IsLawful = (lawful_calls, dynamo-IsEnough)
