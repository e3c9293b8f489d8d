-- ===== src/Api/History.antt =====
-- Histories of the whole gateway: HTTP requests, watchers, sweeps, reads, and time passing in the
-- cluster and the authorizer, in any order.
use deploy_gateway.Base.{String, ◌≡◌, refl, true, false, none, some, List, [], ◌∷◌}
use deploy_gateway.Store.{Operation, is_running}
use deploy_gateway.Store.Api.{View, IsLawful, IsFinal}
use deploy_gateway.Manager.Start.{new_operation_id}
use deploy_gateway.Manager.History
use deploy_gateway.Manager.History.{Call, FreshIn, perform-Reach}
use deploy_gateway.Manager.Steps.{Reach, here, next, quiet, Reach-trans}
use deploy_gateway.Manager.Steps.Exact.{IsToldExactly, Reach-IsToldExactly}
use deploy_gateway.Manager.Steps.Invariant.{
  IsAnnounced, IsTruthful, Reach-IsAnnounced, Reach-IsTruthful, Reach-final,
}
use deploy_gateway.Api.{HttpRequest, Deps, Server}
use deploy_gateway.Api.Handlers.{serve}
use deploy_gateway.Api.Steps.{serve-Reach}

pub data Event (d : Deps) : Type 0 where
  serves : HttpRequest → Event d
  calls : Call → Event d
  elapses : d.platform.State → d.authz.State → Event d

module _ (d : Deps) where
  unfoldable pub happen : Event d → Server d → Server d
  happen (serves req) s = (serve d req s).1
  happen (calls call) s = record s {
    world = History.perform d.store d.platform d.config call s.world;
  }
  happen (elapses e z) s = record { world = record s.world { platform = e }; authz = z }

  unfoldable pub run : Server d → List (Event d) → Server d
  unfolding happen
  run s [] = s
  run s (e ∷ es) = run (happen e s) es

  module _ (view : View d.store) where
    -- The id that an event draws is not in the store.
    abbrev pub IsNew : Server d → Event d → Type 0
    IsNew s (serves req) = view s.world.store (new_operation_id req.ulid) ≡ none
    IsNew s (calls call) = FreshIn d.store d.platform d.config view s.world call
    IsNew s (elapses e z) = Unit

    abbrev pub AllNew : Server d → List (Event d) → Type 0
    AllNew s [] = Unit
    AllNew s (e ∷ es) = IsNew s e × AllNew (happen e s) es

    module _ (lawful : IsLawful d.store view) where
      happen-Reach :
          (e : Event d) (s : Server d)
          → IsNew s e
          → Reach d.store d.platform d.config view s.world (happen e s).world
      unfolding happen
      happen-Reach (serves req) s new = serve-Reach d view lawful req s new
      happen-Reach (calls call) s new =
          perform-Reach d.store d.platform d.config view lawful call s.world new
      happen-Reach (elapses e z) s new = next here (quiet (λ j. refl) refl)

      run-Reach :
          (s : Server d) (es : List (Event d))
          → AllNew s es
          → Reach d.store d.platform d.config view s.world (run s es).world
      unfolding run
      run-Reach s [] new = here
      run-Reach s (e ∷ es) new =
          Reach-trans d.store d.platform d.config view (happen-Reach e s new.0)
            (run-Reach (happen e s) es new.1)

      -- Through every history of requests, watchers, sweeps and reads that draws only new ids, over a
      -- store that keeps its promises, the manager hands its notifier, for each operation, at most the
      -- terminal messages that its status asks for: one if it ended as succeeded, failed or timeout, none
      -- if it is running, denied or not stored. A watcher, a sweep and a read that race for one operation
      -- hand over one together at most; the response of the winning write may be lost.
      pub run_events-IsAnnounced :
          (s : Server d) (es : List (Event d))
          → AllNew s es
          → IsAnnounced d.store d.platform d.config view s.world
          → IsAnnounced d.store d.platform d.config view (run s es).world
      run_events-IsAnnounced s es new h =
          Reach-IsAnnounced d.store d.platform d.config view (run-Reach s es new) h

      -- Through every history of requests, watchers, sweeps and reads that draws only new ids, with the
      -- notifications enabled, over a store that keeps its promises and whose errors are final, so that no
      -- response of a write that was made is lost, the manager hands its notifier, for each operation, just
      -- the terminal messages that its status asks for: none is forgotten.
      pub run_events-IsToldExactly :
          IsFinal d.store view
          → d.config.notify_enabled ≡ true
          → (s : Server d) (es : List (Event d)) → AllNew s es
          → IsToldExactly d.store d.platform d.config view s.world
          → IsToldExactly d.store d.platform d.config view (run s es).world
      run_events-IsToldExactly final enabled s es new h =
          Reach-IsToldExactly d.store d.platform d.config view final enabled (run-Reach s es new) h

      -- Through such a history (with or without notifications) every terminal message keeps telling what
      -- the store holds of its operation: the status, the error and the time of completion.
      pub run_events-IsTruthful :
          (s : Server d) (es : List (Event d))
          → AllNew s es
          → IsTruthful d.store d.platform d.config view s.world
          → IsTruthful d.store d.platform d.config view (run s es).world
      run_events-IsTruthful s es new h =
          Reach-IsTruthful d.store d.platform d.config view (run-Reach s es new) h

      -- Through such a history, over a store that keeps its promises, an operation that has ended stays
      -- exactly as it is.
      pub run_events_final :
          (s : Server d) (es : List (Event d)) (j : String) (op : Operation)
          → AllNew s es
          → view s.world.store j ≡ some op
          → is_running op.status ≡ false
          → view (run s es).world.store j ≡ some op
      run_events_final s es j op new found over =
          Reach-final d.store d.platform d.config view j op (run-Reach s es new) found over
