-- ===== src/Manager/Watch/Settles.antt =====
-- Rules for methods that leave an operation ended in the store.
use mathlib.Core.Path.{subst}
use deploy_gateway.Base.{
  ℕ, ap, ◌==◌, eq_refl, ◌≡◌, refl, inl, inr, true, false, Bool, Bool-cases, String, Option, some,
  arith, if◌then◌else◌,
}
use deploy_gateway.Base.StateMonad.{pure, ◌>>=◌, ◌>>◌}
use deploy_gateway.Store.{Operation, is_running, TerminalUpdate, finish}
use deploy_gateway.Store.Api.{Store, View, IsLawful, IsReliable}
use deploy_gateway.Manager.Platform.{Platform}
use deploy_gateway.Manager.World.{Config, World, M, on_store, now, notify_resolved}
use deploy_gateway.Manager.Resolve.{
  resolve, notify_winner, fail_operation, complete_operation, timeout_operation,
}
use deploy_gateway.Manager.Steps.{
  messages, Step, quiet, announced, created, won, lost, Reach, here, next,
}
use deploy_gateway.Manager.Steps.Methods.{Safe, resolve-Safe, now-Safe}
use deploy_gateway.Manager.Steps.Invariant.{Reach-final}

module _ (S : Store) (P : Platform) (view : View S) (j : String) where
  -- The store has an operation of this id.
  pub record Stored (w : World S P) : Type 0 where
    pub op : Operation
    pub found : view w.store j ≡ some op

  -- It has one, and that has ended.
  pub record Ended (w : World S P) : Type 0 where
    pub op : Operation
    pub found : view w.store j ≡ some op
    pub ended : is_running op.status ≡ false

module _ (S : Store) (P : Platform) (c : Config) (view : View S) (j : String) where
  abbrev after_write : Bool → Operation → Operation → Operation
  after_write b new old = if b then new else old

  Step-Stored :
      {w w' : World S P} → Step S P c view w w' → Stored S P view j w → Stored S P view j w'
  Step-Stored (quiet same notices) s = record { op = s.op; found = rw same s.found }
  Step-Stored (announced o same notices) s = record { op = s.op; found = rw same s.found }
  Step-Stored (created o fresh status changed notices) s = record {
    op = after_write (o.operation_id == j) o s.op;
    found = rw changed (ground (arith, s.found));
  }
  Step-Stored (won o msg upd status u notices) s = record {
    op = after_write (o.operation_id == j) (finish upd u.at u.op) s.op;
    found = rw u.changed (ground (arith, s.found));
  }
  Step-Stored (lost id upd at status failed made u notices) s = record {
    op = after_write (id == j) (finish upd u.at u.op) s.op;
    found = rw u.changed (ground (arith, s.found));
  }

  pub Reach-Stored :
      {w w' : World S P} → Reach S P c view w w' → Stored S P view j w → Stored S P view j w'
  Reach-Stored here s = s
  Reach-Stored (next r st) s = Step-Stored st (Reach-Stored r s)

-- The store keeps its promises and is reachable; `op` is the operation that the watcher follows.
module _ (S : Store) (P : Platform) (c : Config) (view : View S) (lawful : IsLawful S view)
    (reliable : IsReliable S view) (op : Operation) where
  abbrev pub StoredOp : World S P → Type 0
  StoredOp = Stored S P view op.operation_id

  abbrev pub EndedOp : World S P → Type 0
  EndedOp = Ended S P view op.operation_id

  -- The method leaves the operation ended.
  pub record Finishes {A : Type 0} (m : M S P A) : Type 0 where
    pub at : (w : World S P) → StoredOp w → EndedOp (m w).1

  pub Safe-EndedOp :
      {A : Type 0} {m : M S P A}
      → Safe S P c view lawful m
      → (w : World S P) → EndedOp w
      → EndedOp (m w).1
  Safe-EndedOp safe w e = record {
    op = e.op;
    found = Reach-final S P c view op.operation_id e.op (safe.at w) e.found e.ended;
    ended = e.ended;
  }

  pub Safe-StoredOp :
      {A : Type 0} {m : M S P A}
      → Safe S P c view lawful m
      → (w : World S P) → StoredOp w
      → StoredOp (m w).1
  Safe-StoredOp safe w s = Reach-Stored S P c view op.operation_id (safe.at w) s

  resolve-Finishes :
      (msg : Option ℕ) (upd : TerminalUpdate)
      → messages upd.status ≡ 1
      → Finishes (resolve S P c op msg upd)
  unfolding resolve notify_winner now on_store notify_resolved ◌>>=◌ finish
  resolve-Finishes msg upd ends = record {
    at = λ w s. elim (Bool-cases (is_running s.op.status)) [
      | inl running ↦
          let e =
            reliable.update_running op.operation_id upd (P.clock w.platform) w.store s.found
              running in
          let u = lawful.view-update op.operation_id upd (P.clock w.platform) w.store e in
          rw (e, notify_winner)
            (record {
              op = finish upd u.at u.op;
              found = rw (u.changed, eq_refl);
              ended = ground (arith, ends);
            })
      | inr over ↦
          Safe-EndedOp (resolve-Safe S P c view lawful op msg upd ends) w
            (record { op = s.op; found = s.found; ended = over })
    ];
  }

  pub Finishes-bind :
      {A B : Type 0} (m : M S P A) (f : A → M S P B)
      → Safe S P c view lawful m
      → ((a : A) → Finishes (f a))
      → Finishes (m >>= f)
  unfolding ◌>>=◌
  Finishes-bind m f safe fin = record {
    at = λ w s. let (a, w') = m w in (fin a).at w' (Safe-StoredOp safe w s);
  }

  pub complete_operation-Finishes : (msg : Option ℕ) → Finishes (complete_operation S P c op msg)
  unfolding complete_operation
  complete_operation-Finishes msg =
      Finishes-bind _ _ (now-Safe S P c view lawful) (λ t. resolve-Finishes msg _ refl)

  pub fail_operation-Finishes :
      (msg : Option ℕ) (code message : String) → Finishes (fail_operation S P c op msg code message)
  unfolding fail_operation
  fail_operation-Finishes msg code message =
      Finishes-bind _ _ (now-Safe S P c view lawful) (λ t. resolve-Finishes msg _ refl)

  pub timeout_operation-Finishes :
      (msg : Option ℕ) (message : String) → Finishes (timeout_operation S P c op msg message)
  unfolding timeout_operation
  timeout_operation-Finishes msg message =
      Finishes-bind _ _ (now-Safe S P c view lawful) (λ t. resolve-Finishes msg _ refl)

  -- If the method returns true, the operation has ended.
  pub record Settles (m : M S P Bool) : Type 0 where
    pub at : (w : World S P) → StoredOp w → (m w).0 ≡ true → EndedOp (m w).1

  pub Settles-false : Settles (pure false)
  unfolding pure
  Settles-false = record { at = λ w s h. cc }

  -- A write, and `return true`.
  pub Settles-write : (m : M S P (Unit {0})) → Finishes m → Settles (m >> pure true)
  unfolding ◌>>=◌
  Settles-write m fin = record { at = λ w s h. fin.at w s }

  pub Settles-bind :
      {A : Type 0} (m : M S P A) (f : A → M S P Bool)
      → Safe S P c view lawful m
      → ((a : A) → Settles (f a))
      → Settles (m >>= f)
  unfolding ◌>>=◌
  Settles-bind m f safe set = record {
    at = λ w s h. let (a, w') = m w in (set a).at w' (Safe-StoredOp safe w s) h;
  }

  -- `if m() { return true }`, and what follows.
  pub Settles-or :
      (m n : M S P Bool)
      → Safe S P c view lawful m
      → Settles m
      → Settles n
      → Settles (m >>= λ done. if done then pure true else n)
  unfolding ◌>>=◌
  Settles-or m n safe first rest = record { at = λ w s. or_at w s (m w) refl }
    where
      or_at :
          (w : World S P)
          → StoredOp w
          → (r : Bool × World S P) → m w ≡ r
          → ((if r.0 then pure true else n) r.1).0 ≡ true
          → EndedOp ((if r.0 then pure true else n) r.1).1
      or_at w s (true, w') e h = subst (λ r. EndedOp r.1) e (first.at w s (ap (λ r. r.0) e))
      or_at w s (false, w') e h =
          rest.at w' (subst (λ r. StoredOp r.1) e (Safe-StoredOp safe w s)) h

  pub Settles-if :
      (b : Bool) (m n : M S P Bool) → Settles m → Settles n → Settles (if b then m else n)
  Settles-if true m n hm hn = hm
  Settles-if false m n hm hn = hn
