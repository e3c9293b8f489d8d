-- ===== src/Manager/Watch/Ends.antt =====
-- The watcher ends: its context has a deadline, and every round that goes on sleeps a second at least.
use deploy_gateway.Base.{
  ℕ, ◌≤◌, ◌≡◌, refl, true, false, Bool, String, Option, List, Result, GoError, none, some, ok, err,
  [], ◌∷◌, arith, if◌then◌else◌,
}
use deploy_gateway.Base.StateMonad.{
  pure, gets, ◌>>=◌, Runs, IsPreorder, Runs-pure, Runs-gets, Runs-bind,
}
use deploy_gateway.Store.{Operation, TerminalUpdate}
use deploy_gateway.Store.Api.{Store}
use deploy_gateway.Kube.{Deployment, WatchObject, deployment_object, other_object}
use deploy_gateway.Kube.Rollout.{RolloutState, progressing, complete, failed}
use deploy_gateway.Manager.Platform.{Platform, IsTimely}
use deploy_gateway.Manager.World.{Config, World, M, on_platform, on_store, now, notify_resolved}
use deploy_gateway.Manager.Resolve.{
  resolve, notify_winner, fail_operation, complete_operation, timeout_operation,
}
use deploy_gateway.Manager.Watch.{settle, eval_found, eval_once, drain}

module _ (S : Store) (P : Platform) where
  -- The clock has not been turned back.
  pub record Later (w w' : World S P) : Type 0 where
    pub le : P.clock w.platform ≤ P.clock w'.platform

  pub Later-IsPreorder : IsPreorder Later
  Later-IsPreorder = record { refl = λ w. omega arith; trans = λ u v w p q. omega arith }

-- The platform's clock does not run back, and a sleep takes its time.
module _ (S : Store) (P : Platform) (c : Config) (timely : IsTimely P) where
  abbrev pub Forward : {A : Type 0} → M S P A → Type 0
  Forward m = Runs (Later S P) m

  pub Forward-pure : {A : Type 0} (a : A) → Forward (pure a)
  Forward-pure = Runs-pure (Later-IsPreorder S P)

  pub Forward-gets : {A : Type 0} (f : World S P → A) → Forward (gets f)
  Forward-gets = Runs-gets (Later-IsPreorder S P)

  pub Forward-bind :
      {A B : Type 0} (m : M S P A) (f : A → M S P B)
      → Forward m
      → ((a : A) → Forward (f a))
      → Forward (m >>= f)
  Forward-bind = Runs-bind (Later-IsPreorder S P)

  pub Forward-if :
      {A : Type 0} (b : Bool) (m n : M S P A) → Forward m → Forward n → Forward (if b then m else n)
  Forward-if true m n hm hn = hm
  Forward-if false m n hm hn = hn

  pub get_deployment-Forward :
      (ns name : String) → Forward (on_platform S P (P.get_deployment ns name))
  unfolding on_platform
  get_deployment-Forward ns name = record {
    at = λ w. record { le = timely.clock-get ns name w.platform };
  }

  pub watch_deployment-Forward :
      (ns name : String) → Forward (on_platform S P (P.watch_deployment ns name))
  unfolding on_platform
  watch_deployment-Forward ns name = record {
    at = λ w. record { le = timely.clock-watch ns name w.platform };
  }

  pub on_store-Forward : {A : Type 0} (f : S.State → A × S.State) → Forward (on_store S P f)
  unfolding on_store
  on_store-Forward f = record { at = λ w. record { le = omega arith } }

  pub notify_resolved-Forward :
      (op : Operation) (msg : Option ℕ) → Forward (notify_resolved S P c op msg)
  unfolding notify_resolved
  notify_resolved-Forward op msg = record { at = λ w. record { le = omega arith } }

  pub now-Forward : Forward (now S P)
  unfolding now
  now-Forward = Forward-gets _

  pub notify_winner-Forward :
      (op : Operation) (msg : Option ℕ) (upd : TerminalUpdate) (refused : Option GoError)
      → Forward (notify_winner S P c op msg upd refused)
  unfolding notify_winner
  notify_winner-Forward op msg upd none = notify_resolved-Forward _ msg
  notify_winner-Forward op msg upd (some e) = Forward-pure tt

pub ruleset forward_rules = (
  Forward-pure, Forward-gets, Forward-bind, Forward-if, get_deployment-Forward,
  watch_deployment-Forward, on_store-Forward, notify_resolved-Forward, now-Forward,
  notify_winner-Forward,
)

module _ (S : Store) (P : Platform) (c : Config) (timely : IsTimely P) where
  abbrev pub Forwards : {A : Type 0} → M S P A → Type 0
  Forwards = Forward S P c timely

  pub resolve-Forward :
      (op : Operation) (msg : Option ℕ) (upd : TerminalUpdate) → Forwards (resolve S P c op msg upd)
  unfolding resolve
  resolve-Forward op msg upd = search forward_rules

  pub settle-Forward :
      (op : Operation) (msg : Option ℕ) (s : RolloutState) (reason : String)
      → Forwards (settle S P c op msg s reason)
  unfolding settle complete_operation fail_operation
  settle-Forward op msg complete reason = search (forward_rules, resolve-Forward) depth 7
  settle-Forward op msg failed reason = search (forward_rules, resolve-Forward) depth 7
  settle-Forward op msg progressing reason = search forward_rules

  pub drain-Forward :
      (op : Operation) (msg : Option ℕ) (events : List WatchObject)
      → Forwards (drain S P c op msg events)
  unfolding drain
  drain-Forward op msg [] = search forward_rules
  drain-Forward op msg (other_object ∷ events) = drain-Forward op msg events
  drain-Forward op msg (deployment_object dep ∷ events) =
      let ih = drain-Forward op msg events in search (forward_rules, settle-Forward)

  pub eval_found-Forward :
      (op : Operation) (msg : Option ℕ) (found : Result Deployment)
      → Forwards (eval_found S P c op msg found)
  unfolding eval_found
  eval_found-Forward op msg (ok dep) = search settle-Forward
  eval_found-Forward op msg (err e) = search forward_rules

  pub eval_once-Forward : (op : Operation) (msg : Option ℕ) → Forwards (eval_once S P c op msg)
  unfolding eval_once
  eval_once-Forward op msg = search (forward_rules, eval_found-Forward)

  pub timeout_operation-Forward :
      (op : Operation) (msg : Option ℕ) (message : String)
      → Forwards (timeout_operation S P c op msg message)
  unfolding timeout_operation
  timeout_operation-Forward op msg message = search (forward_rules, resolve-Forward)

  -- Started at the time `lo` or later, the method returns true.
  pub record Ends (lo : ℕ) (m : M S P Bool) : Type 0 where
    pub at : (w : World S P) → lo ≤ P.clock w.platform → (m w).0 ≡ true

  pub Ends-pure : (lo : ℕ) → Ends lo (pure true)
  unfolding pure
  Ends-pure lo = record { at = λ w h. refl }

  pub Ends-bind :
      {A : Type 0} (lo : ℕ) (m : M S P A) (f : A → M S P Bool)
      → Forwards m
      → ((a : A) → Ends lo (f a))
      → Ends lo (m >>= f)
  unfolding ◌>>=◌
  Ends-bind lo m f fwd ends = record {
    at = λ w h.
        let (a, w') = m w in
        let l : P.clock w.platform ≤ P.clock w'.platform = (fwd.at w).le in
        (ends a).at w' (omega arith);
  }

  pub Ends-if :
      (lo : ℕ) (b : Bool) (m n : M S P Bool) → Ends lo m → Ends lo n → Ends lo (if b then m else n)
  Ends-if lo true m n hm hn = hm
  Ends-if lo false m n hm hn = hn

pub ruleset ends_rules = (
  Ends-pure, Ends-bind, Ends-if, forward_rules, drain-Forward, eval_once-Forward,
  timeout_operation-Forward,
)
