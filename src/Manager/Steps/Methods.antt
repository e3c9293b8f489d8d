-- ===== src/Manager/Steps/Methods.antt =====
-- Every method of the manager is a sequence of the steps.
use deploy_gateway.Base.{
  ℕ, String, ◌≡◌, refl, inl, inr, true, false, Option, Bool, Option-cases, if◌then◌else◌,
}
use deploy_gateway.Base.StateMonad.{pure, gets, ◌>>=◌, Runs, Runs-pure, Runs-gets, Runs-bind}
use deploy_gateway.Store.{Operation, TerminalUpdate}
use deploy_gateway.Store.Api.{Store, View, IsLawful}
use deploy_gateway.Manager.Platform.{Platform}
use deploy_gateway.Manager.World.{
  Config, World, M, on_store, on_platform, now, notify_started, notify_resolved, spawn,
}
use deploy_gateway.Manager.Resolve.{
  resolve, notify_winner, fail_operation, complete_operation, timeout_operation,
}
use deploy_gateway.Manager.Steps.{
  messages, quiet, announced, won, lost, Reach, here, next, Reach-IsPreorder,
}

-- The store keeps its promises, and the notifier is the Telegram one.
module _ (S : Store) (P : Platform) (c : Config) (view : View S) (lawful : IsLawful S view) where
  abbrev pub Safe : {A : Type 0} → M S P A → Type 0
  Safe m = Runs (Reach S P c view) m

  pub on_platform-Safe : {A : Type 0} (f : P.State → A × P.State) → Safe (on_platform S P f)
  unfolding on_platform
  on_platform-Safe f = record { at = λ w. next here (quiet (λ j. refl) refl) }

  pub get_operation-Safe : (id : String) → Safe (on_store S P (S.get_operation id))
  unfolding on_store
  get_operation-Safe id = record {
    at = λ w. next here (quiet (λ j. lawful.view-get id w.store j) refl);
  }

  pub list-Safe : (t : ℕ) → Safe (on_store S P (S.list_running_past_deadline t))
  unfolding on_store
  list-Safe t = record { at = λ w. next here (quiet (λ j. lawful.view-list t w.store j) refl) }

  pub spawn-Safe : (op : Operation) (msg : Option ℕ) → Safe (spawn S P op msg)
  unfolding spawn
  spawn-Safe op msg = record { at = λ w. next here (quiet (λ j. refl) refl) }

  pub notify_started-Safe : (op : Operation) → Safe (notify_started S P c op)
  unfolding notify_started
  notify_started-Safe op = record { at = λ w. (next here (announced op (λ j. refl) refl)) }

  -- Losing the race is a quiet step, winning it is the one step that sends a terminal message, unless the
  -- response of the write is lost.
  pub resolve-Safe :
      (op : Operation) (msg : Option ℕ) (upd : TerminalUpdate)
      → messages upd.status ≡ 1
      → Safe (resolve S P c op msg upd)
  unfolding resolve ◌>>=◌ now on_store notify_resolved
  resolve-Safe op msg upd ends = record {
    at = λ w.
        let s = S.update_terminal op.operation_id upd (P.clock w.platform) w.store in
        elim (Option-cases s.0) [
          | inl e ↦
              rw (e, notify_winner)
                ((next here (
                  won op msg upd ends
                    (lawful.view-update op.operation_id upd (P.clock w.platform) w.store e) refl)))
          | inr (x, e) ↦
              rw (e, notify_winner)
                (elim (lawful.view-update_failed op.operation_id upd (P.clock w.platform) w.store
                  e) [
                    | inl same ↦ next here (quiet same refl)
                    | inr u ↦
                        next here (lost op.operation_id upd (P.clock w.platform) ends e refl u refl)
                  ])
        ];
  }

  pub Safe-pure : {A : Type 0} (a : A) → Safe (pure a)
  Safe-pure = Runs-pure (Reach-IsPreorder S P c view)

  pub Safe-gets : {A : Type 0} (f : World S P → A) → Safe (gets f)
  Safe-gets = Runs-gets (Reach-IsPreorder S P c view)

  pub Safe-bind :
      {A B : Type 0} (m : M S P A) (f : A → M S P B)
      → Safe m
      → ((a : A) → Safe (f a))
      → Safe (m >>= f)
  Safe-bind = Runs-bind (Reach-IsPreorder S P c view)

  pub Safe-if :
      {A : Type 0} (b : Bool) (m n : M S P A) → Safe m → Safe n → Safe (if b then m else n)
  Safe-if true m n hm hn = hm
  Safe-if false m n hm hn = hn

  pub now-Safe : Safe (now S P)
  unfolding now
  now-Safe = Safe-gets _

  pub fail_operation-Safe :
      (op : Operation) (msg : Option ℕ) (code message : String)
      → Safe (fail_operation S P c op msg code message)
  unfolding fail_operation
  fail_operation-Safe op msg code message = Safe-bind _ _ now-Safe (λ t. resolve-Safe op msg _ refl)

  pub complete_operation-Safe :
      (op : Operation) (msg : Option ℕ) → Safe (complete_operation S P c op msg)
  unfolding complete_operation
  complete_operation-Safe op msg = Safe-bind _ _ now-Safe (λ t. resolve-Safe op msg _ refl)

  pub timeout_operation-Safe :
      (op : Operation) (msg : Option ℕ) (message : String)
      → Safe (timeout_operation S P c op msg message)
  unfolding timeout_operation
  timeout_operation-Safe op msg message = Safe-bind _ _ now-Safe (λ t. resolve-Safe op msg _ refl)

pub ruleset safe_rules = (
  Safe-pure, Safe-gets, Safe-bind, Safe-if, on_platform-Safe, get_operation-Safe, list-Safe,
  spawn-Safe, notify_started-Safe, now-Safe, fail_operation-Safe, complete_operation-Safe,
  timeout_operation-Safe,
)
