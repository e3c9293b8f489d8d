-- ===== src/Manager/World.antt =====
-- The state of the gateway as the manager's methods see it, and the monad of those methods.
use deploy_gateway.Base.{ℕ, Option, none, some, List, [], ◌∷◌, ◌++◌, Bool, length, if◌then◌else◌}
use deploy_gateway.Base.StateMonad.{State, gets, modify}
use deploy_gateway.Store.{Time, Operation}
use deploy_gateway.Store.Api.{Store}
use deploy_gateway.Manager.Platform.{Platform}

-- A call of the notifier: `Started`, which gives back a handle to the message, and `Resolved`.
pub data Notice : Type 0 where
  started : Operation → Notice
  resolved : Operation → Option ℕ → Notice

-- A running `go m.watchRollout(op, msg)`.
pub record Watcher : Type 0 where
  pub op : Operation
  pub msg : Option ℕ

-- The fields of `Manager` that are no interface.
pub record Config : Type 0 where
  pub default_deadline : ℕ
  pub notify_enabled : Bool

pub record World (S : Store) (P : Platform) : Type 0 where
  pub store : S.State
  pub platform : P.State
  pub notices : List Notice
  pub watchers : List Watcher

-- The methods of the manager.
abbrev pub M : Store → Platform → Type 0 → Type 0
M S P A = State (World S P) A

-- One more call of the notifier; the notifier that does nothing keeps none.
abbrev pub tell : Config → List Notice → Notice → List Notice
tell c notices n = if c.notify_enabled then notices ++ (n ∷ []) else notices

module _ (S : Store) (P : Platform) where
  -- A call of the store, and a call of the platform.
  unfoldable pub on_store : {A : Type 0} → (S.State → A × S.State) → M S P A
  on_store f w = let (a, s) = f w.store in (a, record w { store = s })

  unfoldable pub on_platform : {A : Type 0} → (P.State → A × P.State) → M S P A
  on_platform f w = let (a, e) = f w.platform in (a, record w { platform = e })

  -- `time.Now().UTC()`
  unfoldable pub now : M S P Time
  unfolding gets
  now = gets (λ w. P.clock w.platform)

  -- `notify.Started`: the handle to the message, or nil from the notifier that does nothing
  unfoldable pub notify_started : Config → Operation → M S P (Option ℕ)
  notify_started c op w = (
    if c.notify_enabled then some (length w.notices) else none,
    record w { notices = tell c w.notices (started op) },
  )

  -- `notify.Resolved`
  unfoldable pub notify_resolved : Config → Operation → Option ℕ → M S P (Unit {0})
  notify_resolved c op msg w = (tt, record w { notices = tell c w.notices (resolved op msg) })

  -- `go m.watchRollout(op, msg)`
  unfoldable pub spawn : Operation → Option ℕ → M S P (Unit {0})
  unfolding modify
  spawn op msg =
      modify λ w. record w { watchers = w.watchers ++ (record { op = op; msg = msg } ∷ []) }
