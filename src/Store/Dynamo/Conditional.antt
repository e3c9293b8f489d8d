-- ===== src/Store/Dynamo/Conditional.antt =====
-- internal/store/dynamo.go, UpdateTerminal: the conditional write lets one writer end an operation.
use deploy_gateway.Base.{
  ◌≡◌, ◌≢◌, refl, sym, ap, ◌∙◌, Bool, true, false, Option, none, some, List, [], ◌∷◌, GoError, ok,
  if◌then◌else◌,
}
use deploy_gateway.Store.{Operation, is_running, TerminalUpdate, finish}
use deploy_gateway.Store.InMemory.{err_already_terminal}
use deploy_gateway.Store.Dynamo.{
  Key, UpdateError, no_error, conditional_check_failed, Table, is_key_schema_mismatch, update_error,
  UpdateItemInput, update_input, update_keys_for, after_update, update_keys, update_found,
}
use deploy_gateway.Store.Dynamo.Expressions.{
  holds, perform, holds-update_input, perform-update_input,
}

abbrev pub IsRunning : Option Operation → Type 0
IsRunning none = ⊥
IsRunning (some op) = is_running op.status ≡ true

module _ (T : Table) (row : Key → T.State → Option Operation) where
  -- What an accepted write under a key did: the row ran, it has the update's fields now, with the
  -- update's time on the audit event too, and no other row changed.
  pub record Written (key : Key) (upd : TerminalUpdate) (s s' : T.State) : Type 0 where
    pub op : Operation
    pub found : row key s ≡ some op
    pub was_running : is_running op.status ≡ true
    pub written : row key s' ≡ some (finish upd upd.completed_at op)
    pub others : (k : Key) → key ≢ k → row k s' ≡ row k s

-- There is a row, and the condition holds of it.
abbrev pub Met : UpdateItemInput → Option Operation → Type 0
Met input none = ⊥
Met input (some op) = holds input op ≡ true

module _ (T : Table) (row : Key → T.State → Option Operation) where
  -- What an update that is made does: the condition held of the row, the assignments are made to it, and
  -- no other row changed.
  pub record Performed (input : UpdateItemInput) (s s' : T.State) : Type 0 where
    pub op : Operation
    pub found : row input.key s ≡ some op
    pub met : holds input op ≡ true
    pub performed : row input.key s' ≡ some (perform input op)
    pub others : (k : Key) → input.key ≢ k → row k s' ≡ row k s

module _ (T : Table) (may_fail : Bool) (fits : Key → Bool)
    (row : Key → T.State → Option Operation) where
  -- The answers of UpdateItem. A key of another schema is rejected as such; an update whose condition
  -- fails is not made; a request may go wrong for another reason, before the update is made or after
  -- it, when the response is lost.
  pub data Answer (input : UpdateItemInput) (s : T.State) (r : Option UpdateError × T.State)
      : Type 0 where
    mismatched :
        {x : UpdateError}
        → fits input.key ≡ false
        → is_key_schema_mismatch x ≡ true
        → r ≡ (some x, s)
        → Answer input s r
    refused :
        {x : UpdateError}
        → fits input.key ≡ true
        → ¬ Met input (row input.key s)
        → x.kind ≡ conditional_check_failed
        → is_key_schema_mismatch x ≡ false
        → r ≡ (some x, s)
        → Answer input s r
    unreached :
        {x : UpdateError}
        → may_fail ≡ true
        → is_key_schema_mismatch x ≡ false
        → r ≡ (some x, s)
        → Answer input s r
    unanswered :
        {x : UpdateError} {s' : T.State}
        → may_fail ≡ true
        → fits input.key ≡ true
        → Performed T row input s s'
        → is_key_schema_mismatch x ≡ false
        → r ≡ (some x, s')
        → Answer input s r
    accepted :
        {s' : T.State}
        → fits input.key ≡ true
        → Performed T row input s s'
        → r ≡ (none, s')
        → Answer input s r

-- A table of one key schema, as DynamoDB documents it: the rows that it holds under the keys that fit, and
-- the answers of a conditional update.
pub record Conditional (T : Table) : Type 0 where
  -- whether requests may go wrong
  pub may_fail : Bool
  pub fits : Key → Bool
  pub row : Key → T.State → Option Operation
  pub update_answer :
      (input : UpdateItemInput) (s : T.State)
      → Answer T may_fail fits row input s (T.update_item input s)

module _ (T : Table) (c : Conditional T) where
  Performed-Written :
      (key : Key) (upd : TerminalUpdate) (s s' : T.State)
      → Performed T c.row (update_input key upd) s s'
      → Written T c.row key upd s s'
  unfolding update_input
  Performed-Written key upd s s' p = record {
    op = p.op;
    found = p.found;
    was_running = sym (holds-update_input key upd p.op) ∙ p.met;
    written = p.performed ∙ ap some (perform-update_input key upd p.op);
    others = p.others;
  }

  running-Met :
      (key : Key) (upd : TerminalUpdate) (o : Option Operation)
      → IsRunning o
      → Met (update_input key upd) o
  running-Met key upd none h = elim h [ ]
  running-Met key upd (some op) h = holds-update_input key upd op ∙ h

-- A writer that has found a row, at some time before, and will end it.
pub record Writer : Type 0 where
  pub found : Operation
  pub update : TerminalUpdate

module _ (T : Table) (c : Conditional T) where
  abbrev pub first_fit : List Key → Option Key
  first_fit [] = none
  first_fit (key ∷ keys) = if c.fits key then some key else first_fit keys

  -- What an update comes to, whichever key it tried first.
  pub data Effect (key : Key) (upd : TerminalUpdate) (s : T.State) (r : Option GoError × T.State)
      : Type 0 where
    declined : ¬ IsRunning (c.row key s) → r ≡ (some err_already_terminal, s) → Effect key upd s r
    went_wrong : {e : GoError} → c.may_fail ≡ true → r ≡ (some e, s) → Effect key upd s r
    unheard :
        {e : GoError} {s' : T.State}
        → c.may_fail ≡ true
        → Written T c.row key upd s s'
        → r ≡ (some e, s')
        → Effect key upd s r
    made : {s' : T.State} → Written T c.row key upd s s' → r ≡ (none, s') → Effect key upd s r

  fitting :
      (k key : Key) (keys : List Key) → c.fits k ≡ true → first_fit (k ∷ keys) ≡ some key → k ≡ key
  fitting k key keys f h = let g : some k ≡ some key = rw f at h in cc

  update_keys-Effect :
      (key : Key) (upd : TerminalUpdate) (last : UpdateError) (keys : List Key) (s : T.State)
      → first_fit keys ≡ some key
      → Effect key upd s (update_keys T upd last keys s)
  unfolding update_keys after_update update_error update_input
  update_keys-Effect key upd last [] s h = cc
  update_keys-Effect key upd last (k ∷ keys) s h = elim (c.update_answer (update_input k upd) s) [
    | mismatched {x} f m e ↦ rw (e, m) (update_keys-Effect key upd x keys s (rw f at h))
    | refused {x} f n kind m e ↦
        let same = fitting k key keys f h in
        rw (e, m, kind, sym same) (declined (λ run. n (running-Met T c k upd (c.row k s) run)) refl)
    | unreached {x} fails m e ↦ rw (e, m) (went_wrong fails refl)
    | unanswered {x} {s'} fails f p m e ↦
        let same = fitting k key keys f h in
        rw (e, m, sym same) (unheard fails (Performed-Written T c k upd s s' p) refl)
    | accepted {s'} f p e ↦
        let same = fitting k key keys f h in
        rw (e, sym same) (made (Performed-Written T c k upd s s' p) refl)
  ]

  module _ (key : Key) (op : Operation) (fit : first_fit (update_keys_for op) ≡ some key) where
    -- The snapshot that a writer found is one of this row: its key is tried.
    abbrev pub IsOf : Writer → Type 0
    IsOf w = update_keys_for w.found ≡ update_keys_for op

    abbrev pub Ends : Writer → Type 0
    Ends w = is_running w.update.status ≡ false

    pub update_found-Effect :
        (w : Writer) (s : T.State)
        → IsOf w
        → (r : Option GoError × T.State) × (update_found T w.update (some (ok w.found)) s
            ≡ (some r.0, r.1))
          × Effect key w.update s r
    unfolding update_found
    update_found-Effect w s h = (
      update_keys T w.update no_error (update_keys_for w.found) s,
      refl,
      update_keys-Effect key w.update no_error (update_keys_for w.found) s (ap first_fit h ∙ fit),
    )
