-- ===== src/Store/InMemory/Laws.antt =====
-- The in-memory store keeps the promises of the interface.
use deploy_gateway.Base.{
  ◌/◌, ◌<◌, ◌==◌, Any, Bool, Bool-cases, inl, inr, [], ◌∷◌, if◌then◌else◌, String, ◌≡◌, refl, true,
  false, Option, none, some, GoError, arith,
}
use deploy_gateway.Base.Dict
use deploy_gateway.Base.Dict.{lookup, lookup-insert}
use deploy_gateway.Store.{Time, second, Operation, is_running, TerminalUpdate, finish}
use deploy_gateway.Store.Api.{IsLawful, IsFinal, IsReliable, Updated}
use deploy_gateway.Store.InMemory.{
  Ops, is_overdue, overdue, put_operation, get_operation, update_found, update_terminal,
  list_running_past_deadline, ping, new_in_memory,
}

abbrev pub view : Ops → String → Option Operation
view ops id = Dict.lookup id ops

module _ (id : String) (upd : TerminalUpdate) (now : Time) (ops : Ops) where
  update_found-Updated :
      (o : Option Operation)
      → Dict.lookup id ops ≡ o
      → (update_found id upd now ops o).0 ≡ none
      → Updated id upd (view ops) (view (update_found id upd now ops o).1)
  unfolding update_found
  update_found-Updated none e h = cc
  update_found-Updated (some op) e h =
      let was : is_running op.status ≡ true = ground arith in
      record {
        op = op;
        at = now;
        found = e;
        was_running = was;
        changed = λ j. rw was (lookup-insert j id (finish upd now op) ops);
      }

  update_found_failed :
      (o : Option Operation) {e : GoError}
      → (update_found id upd now ops o).0 ≡ some e
      → (update_found id upd now ops o).1 ≡ ops
  unfolding update_found
  update_found_failed o h = ground arith

-- The promises of the interface.
pub new_in_memory-IsLawful : IsLawful new_in_memory view
unfolding put_operation get_operation update_terminal list_running_past_deadline ping
new_in_memory-IsLawful = record {
  view-put = λ op s j h. lookup-insert j op.operation_id op s;
  view-put_failed = λ op s h. cc;
  view-get = λ id s j. refl;
  view-update = λ id upd now s h. update_found-Updated id upd now s (Dict.lookup id s) refl h;
  view-update_failed =
      λ id upd now s h. inl (λ j. rw (update_found_failed id upd now s (Dict.lookup id s) h));
  view-list = λ older_than s j. refl;
  view-ping = λ s j. refl;
}

pub new_in_memory-IsFinal : IsFinal new_in_memory view
unfolding put_operation get_operation update_terminal
new_in_memory-IsFinal = record {
  view-put_refused = λ op s j h. cc;
  view-update_refused =
      λ id upd now s j h. rw (update_found_failed id upd now s (Dict.lookup id s) h);
  get-view = λ id s h. ground arith;
}

is_overdue-earlier :
    (older_than : Time) (op : Operation)
    → is_running op.status ≡ true
    → op.requested_at / second < older_than / second
    → is_overdue older_than op ≡ true
is_overdue-earlier older_than op running earlier =
    let late : op.requested_at < older_than = omega arith in ground arith

overdue-Any :
    (older_than : Time) (id : String) (ops : Ops) {op : Operation}
    → Dict.lookup id ops ≡ some op
    → is_overdue older_than op ≡ true
    → Any (λ x. x ≡ op) (overdue older_than ops)
unfolding lookup overdue
overdue-Any older_than id [] h late = cc
overdue-Any older_than id ((j, x) ∷ ops) {op} h late = elim (Bool-cases (j == id)) [
  | inl here ↦
      let same : some x ≡ some op = rw here at h in
      let x_is : x ≡ op = cc in rw (x_is, late) (inl refl)
  | inr further ↦
      let rest = overdue-Any older_than id ops (rw further at h) late in
      in_rest (is_overdue older_than x) rest
]
  where
    in_rest :
        (b : Bool)
        → Any (λ y. y ≡ op) (overdue older_than ops)
        → Any (λ y. y ≡ op) (if b then x ∷ overdue older_than ops else overdue older_than ops)
    in_rest true r = inr r
    in_rest false r = r

-- No call fails without a reason of its own.
pub new_in_memory-IsReliable : IsReliable new_in_memory view
unfolding put_operation get_operation update_terminal update_found list_running_past_deadline
new_in_memory-IsReliable = record {
  update_running = λ id upd now s h r. ground arith;
  put_ok = λ op s. refl;
  get_stored = λ id s h. ground arith;
  list_overdue = λ older_than s id op h running earlier.
      (_, refl, overdue-Any older_than id s h (is_overdue-earlier older_than op running earlier));
}

-- The in-memory store keeps every promise of the interface: an accepted put or terminal update shows
-- under its own id and changes no other, a terminal update is accepted only of a running operation,
-- and a refused call and every read leave all operations as they were. It is always reachable: it
-- accepts every put and every terminal update of a running operation, finds every operation that it
-- stores, and its list has every running operation that was requested in a second before the
-- bound's.
new_in_memory_keeps :
    IsLawful new_in_memory view × IsFinal new_in_memory view × IsReliable new_in_memory view
new_in_memory_keeps = (new_in_memory-IsLawful, new_in_memory-IsFinal, new_in_memory-IsReliable)
