-- ===== src/Store/Api.antt =====
-- The interface `Store` of internal/store/operation.go, and what its clients rely on. An
-- implementation has a state of its own; `update_terminal` is given what `time.Now()` answers in it.
use deploy_gateway.Base.{
  ◌/◌, ◌<◌, ◌⊎◌, Any, String, ◌≡◌, ◌==◌, true, Option, none, some, List, GoError, Result, ok,
  if◌then◌else◌,
}
use deploy_gateway.Store.{Time, second, Operation, is_running, TerminalUpdate, finish}

pub record Store : Type 1 where
  pub State : Type 0
  pub put_operation : Operation → State → Option GoError × State
  pub get_operation : String → State → Result Operation × State
  pub update_terminal : String → TerminalUpdate → Time → State → Option GoError × State
  pub list_running_past_deadline : Time → State → Result (List Operation) × State
  pub ping : State → Option GoError × State

-- What a successful terminal update of `id` did to the view: the operation was there and running, it
-- has the update's fields now, and nothing else changed.
pub record Updated (id : String) (upd : TerminalUpdate) (before after : String → Option Operation)
    : Type 0 where
  pub op : Operation
  pub at : Time
  pub found : before id ≡ some op
  pub was_running : is_running op.status ≡ true
  pub changed : (j : String) → after j ≡ (if id == j then some (finish upd at op) else before j)

-- The operation that each id shows in a state.
abbrev pub View : Store → Type 0
View S = S.State → String → Option Operation

-- The promises of the interface, over such a view. Reading changes nothing. A write that reports an
-- error has changed nothing, or it was made and its response was lost.
pub record IsLawful (S : Store) (view : View S) : Type 0 where
  pub view-put :
      (op : Operation) (s : S.State) (j : String)
      → (S.put_operation op s).0 ≡ none
      → view (S.put_operation op s).1 j ≡ (if op.operation_id == j then some op else view s j)
  pub view-put_failed :
      (op : Operation) (s : S.State) {e : GoError}
      → (S.put_operation op s).0 ≡ some e
      → ((j : String) → view (S.put_operation op s).1 j ≡ view s j)
        ⊎ ((j : String)
            → view (S.put_operation op s).1 j
              ≡ (if op.operation_id == j then some op else view s j))
  pub view-get :
      (id : String) (s : S.State) (j : String) → view (S.get_operation id s).1 j ≡ view s j
  pub view-update :
      (id : String) (upd : TerminalUpdate) (now : Time) (s : S.State)
      → (S.update_terminal id upd now s).0 ≡ none
      → Updated id upd (view s) (view (S.update_terminal id upd now s).1)
  pub view-update_failed :
      (id : String) (upd : TerminalUpdate) (now : Time) (s : S.State) {e : GoError}
      → (S.update_terminal id upd now s).0 ≡ some e
      → ((j : String) → view (S.update_terminal id upd now s).1 j ≡ view s j)
        ⊎ Updated id upd (view s) (view (S.update_terminal id upd now s).1)
  pub view-list :
      (older_than : Time) (s : S.State) (j : String)
      → view (S.list_running_past_deadline older_than s).1 j ≡ view s j
  pub view-ping : (s : S.State) (j : String) → view (S.ping s).1 j ≡ view s j

-- A store whose errors are final: a write that reports one has changed nothing. And what it finds is
-- what it holds.
pub record IsFinal (S : Store) (view : View S) : Type 0 where
  pub view-put_refused :
      (op : Operation) (s : S.State) (j : String) {e : GoError}
      → (S.put_operation op s).0 ≡ some e
      → view (S.put_operation op s).1 j ≡ view s j
  pub view-update_refused :
      (id : String) (upd : TerminalUpdate) (now : Time) (s : S.State) (j : String) {e : GoError}
      → (S.update_terminal id upd now s).0 ≡ some e
      → view (S.update_terminal id upd now s).1 j ≡ view s j
  pub get-view :
      (id : String) (s : S.State) {op : Operation}
      → (S.get_operation id s).0 ≡ ok op
      → view s id ≡ some op

-- A store that is never unreachable: a terminal update of a running operation succeeds, a stored
-- operation is found, and the list has every running operation that is older than the bound.
pub record IsReliable (S : Store) (view : View S) : Type 0 where
  pub update_running :
      (id : String) (upd : TerminalUpdate) (now : Time) (s : S.State) {op : Operation}
      → view s id ≡ some op
      → is_running op.status ≡ true
      → (S.update_terminal id upd now s).0 ≡ none
  pub put_ok : (op : Operation) (s : S.State) → (S.put_operation op s).0 ≡ none
  pub get_stored :
      (id : String) (s : S.State) {op : Operation}
      → view s id ≡ some op
      → (S.get_operation id s).0 ≡ ok op
  -- A bound in a later second: a table compares the times as texts, which keep the order of seconds.
  pub list_overdue :
      (older_than : Time) (s : S.State) (id : String) (op : Operation)
      → view s id ≡ some op
      → is_running op.status ≡ true
      → op.requested_at / second < older_than / second
      → (ops : List Operation) × ((S.list_running_past_deadline older_than s).0 ≡ ok ops)
        × Any (λ x. x ≡ op) ops
