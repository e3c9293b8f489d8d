-- ===== src/Manager/Steps.antt =====
-- What any part of the gateway can do to the store and the chat, as a step relation: the watchers, the
-- sweeper and the requests interleave in any order, and each step is one atomic call of the store.
pub mod Invariant
pub mod Exact
pub mod Methods
pub mod Reconciling
pub mod Starting
pub mod Watching
use deploy_gateway.Base.{ℕ, String, ◌==◌, ◌≡◌, Option, none, some, GoError, if◌then◌else◌}
use deploy_gateway.Base.StateMonad.{IsPreorder}
use deploy_gateway.Store.{
  Operation, OperationStatus, running, succeeded, failed, timeout, denied, TerminalUpdate,
}
use deploy_gateway.Store.Api.{Store, View, Updated}
use deploy_gateway.Manager.Platform.{Platform}
use deploy_gateway.Manager.World.{Config, World, tell, started, resolved}
use deploy_gateway.Manager.Resolve.{apply_terminal}

-- How many terminal messages an operation of this status has in the chat.
abbrev pub messages : OperationStatus → ℕ
messages running = 0
messages denied = 0
messages _ = 1

module _ (S : Store) (P : Platform) (c : Config) (view : View S) where
  pub data Step (w w' : World S P) : Type 0 where
    -- Reads, calls that failed, calls of the platform.
    quiet : ((j : String) → view w'.store j ≡ view w.store j) → w'.notices ≡ w.notices → Step w w'
    -- A message for an operation that goes on.
    announced :
        (op : Operation)
        → ((j : String) → view w'.store j ≡ view w.store j)
        → w'.notices ≡ tell c w.notices (started op)
        → Step w w'
    -- A new operation, running or denied.
    created :
        (op : Operation)
        → view w.store op.operation_id ≡ none
        → messages op.status ≡ 0
        → ((j : String)
            → view w'.store j ≡ (if op.operation_id == j then some op else view w.store j))
        → w'.notices ≡ w.notices
        → Step w w'
    -- A terminal write that was accepted, and its message.
    won :
        (op : Operation) (msg : Option ℕ) (upd : TerminalUpdate)
        → messages upd.status ≡ 1
        → Updated op.operation_id upd (view w.store) (view w'.store)
        → w'.notices ≡ tell c w.notices (resolved (apply_terminal op upd) msg)
        → Step w w'
    -- A terminal write that was made, but whose response was lost: nobody tells of it.
    lost :
        (id : String) (upd : TerminalUpdate) (at : ℕ) {e : GoError}
        → messages upd.status ≡ 1
        → (S.update_terminal id upd at w.store).0 ≡ some e
        → w'.store ≡ (S.update_terminal id upd at w.store).1
        → Updated id upd (view w.store) (view w'.store)
        → w'.notices ≡ w.notices
        → Step w w'

  pub data Reach (w : World S P) : World S P → Type 0 where
    here : Reach w w
    next : {v u : World S P} → Reach w v → Step v u → Reach w u

  pub Reach-trans : {u v w : World S P} → Reach u v → Reach v w → Reach u w
  Reach-trans r here = r
  Reach-trans r (next q s) = next (Reach-trans r q) s

  pub Reach-IsPreorder : IsPreorder Reach
  Reach-IsPreorder = record { refl = λ w. here; trans = λ u v w r q. Reach-trans r q }
