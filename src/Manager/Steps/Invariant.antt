-- ===== src/Manager/Steps/Invariant.antt =====
-- What holds whatever the interleaving of steps.
use mathlib.Core.Path.{subst}
use deploy_gateway.Base.{
  ℕ, ◌+◌, ◌≤◌, String, ◌==◌, eq_iff, ◌≡◌, refl, Option, none, some, List, [], ◌∷◌, ◌++◌, All,
  All-append, arith, Bool-cases, inl, inr, false, eq_refl, sym, if◌then◌else◌,
}
use deploy_gateway.Store.{Operation, OperationStatus, TerminalUpdate, finish, is_running}
use deploy_gateway.Store.Api.{Store, View, Updated}
use deploy_gateway.Manager.Platform.{Platform}
use deploy_gateway.Manager.World.{Config, World, Notice, tell, started, resolved}
use deploy_gateway.Manager.Resolve.{apply_terminal}
use deploy_gateway.Manager.Steps.{
  messages, Step, quiet, announced, created, won, lost, Reach, here, next,
}

-- The terminal messages for an operation id.
unfoldable pub terminal_notices : String → List Notice → ℕ
terminal_notices j [] = 0
terminal_notices j (started op ∷ ns) = terminal_notices j ns
terminal_notices j (resolved op msg ∷ ns) =
    (if op.operation_id == j then 1 else 0) + terminal_notices j ns

abbrev pub expected : Option Operation → ℕ
expected none = 0
expected (some op) = messages op.status

terminal_notices-started :
    (j : String) (op : Operation) (ns : List Notice)
    → terminal_notices j (ns ++ (started op ∷ [])) ≡ terminal_notices j ns
unfolding terminal_notices
terminal_notices-started j op [] = refl
terminal_notices-started j op (started o ∷ ns) = terminal_notices-started j op ns
terminal_notices-started j op (resolved o m ∷ ns) = omega (arith, terminal_notices-started j op ns)

pub terminal_notices-resolved :
    (j : String) (op : Operation) (msg : Option ℕ) (ns : List Notice)
    → terminal_notices j (ns ++ (resolved op msg ∷ []))
      ≡ terminal_notices j ns + (if op.operation_id == j then 1 else 0)
unfolding terminal_notices
terminal_notices-resolved j op msg [] = omega arith
terminal_notices-resolved j op msg (started o ∷ ns) = terminal_notices-resolved j op msg ns
terminal_notices-resolved j op msg (resolved o m ∷ ns) =
    omega (arith, terminal_notices-resolved j op msg ns)

All-tell :
    (T : Notice → Type 0) (c : Config) (n : Notice) (ns : List Notice)
    → All T ns
    → T n
    → All T (tell c ns n)
All-tell T c n ns h t = elim (Bool-cases c.notify_enabled) [
  | inl e ↦ rw e (All-append T ns (n ∷ []) h (t, tt))
  | inr e ↦ rw e h
]

pub ended_of_messages : (s : OperationStatus) → messages s ≡ 1 → is_running s ≡ false
ended_of_messages s h = ground arith

module _ (S : Store) (P : Platform) (c : Config) (view : View S) where
  -- No operation has more terminal messages than its status asks for.
  pub record IsAnnounced (w : World S P) : Type 0 where
    pub at : (j : String) → terminal_notices j w.notices ≤ expected (view w.store j)

  tell-terminal :
      (j : String) (op : Operation) (msg : Option ℕ) (ns : List Notice)
      → terminal_notices j (tell c ns (resolved op msg))
        ≤ terminal_notices j ns + (if op.operation_id == j then 1 else 0)
  tell-terminal j op msg ns = elim (Bool-cases c.notify_enabled) [
    | inl e ↦ rw (e, terminal_notices-resolved) (omega arith)
    | inr e ↦ rw e (ground arith)
  ]

  pub tell-started :
      (j : String) (op : Operation) (ns : List Notice)
      → terminal_notices j (tell c ns (started op)) ≡ terminal_notices j ns
  tell-started j op ns = elim (Bool-cases c.notify_enabled) [
    | inl e ↦ rw (e, terminal_notices-started) refl
    | inr e ↦ rw e refl
  ]

  pub Step-IsAnnounced : {w w' : World S P} → Step S P c view w w' → IsAnnounced w → IsAnnounced w'
  unfolding finish apply_terminal
  Step-IsAnnounced {w} {w'} (quiet same notices) h = record {
    at = λ j. rw (notices, same j) (h.at j);
  }
  Step-IsAnnounced {w} {w'} (announced op same notices) h = record {
    at = λ j. rw (notices, tell-started, same j) (h.at j);
  }
  Step-IsAnnounced {w} {w'} (created op fresh status changed notices) h = record {
    at = λ j.
        rw (notices, changed j)
          (ground (arith, h.at j, h.at op.operation_id, eq_iff op.operation_id j));
  }
  Step-IsAnnounced {w} {w'} (won op msg upd status u notices) h = record {
    at = λ j.
        let told = tell-terminal j (apply_terminal op upd) msg w.notices in
        rw (notices, u.changed j)
          (ground (arith, told, h.at j, h.at op.operation_id, eq_iff op.operation_id j));
  }
  Step-IsAnnounced {w} {w'} (lost id upd at status failed made u notices) h = record {
    at = λ j. rw (notices, u.changed j) (ground (arith, h.at j, h.at id, eq_iff id j));
  }

  -- An operation that has ended never changes again.
  pub Step-final :
      {w w' : World S P} (j : String) (op : Operation)
      → Step S P c view w w'
      → view w.store j ≡ some op
      → is_running op.status ≡ false
      → view w'.store j ≡ some op
  Step-final j op (quiet same notices) e h = rw same e
  Step-final j op (announced o same notices) e h = rw same e
  Step-final j op (created o fresh status changed notices) e h =
      rw changed (ground (arith, eq_iff o.operation_id j))
  Step-final j op (won o msg upd status u notices) e h =
      rw u.changed (ground (arith, eq_iff o.operation_id j, u.found, u.was_running))
  Step-final j op (lost id upd at status failed made u notices) e h =
      rw u.changed (ground (arith, eq_iff id j, u.found, u.was_running))

  -- What a terminal message shows is what the store holds.
  pub record Agrees (w : World S P) (shown : Operation) : Type 0 where
    pub op : Operation
    pub stored : view w.store shown.operation_id ≡ some op
    pub ended : is_running op.status ≡ false
    pub status : op.status ≡ shown.status
    pub error_code : op.error_code ≡ shown.error_code
    pub error_message : op.error_message ≡ shown.error_message
    pub completed_at : op.completed_at ≡ shown.completed_at

  abbrev pub Tells : World S P → Notice → Type 0
  Tells w (started op) = Unit
  Tells w (resolved shown msg) = Agrees w shown

  Step-Tells :
      {w w' : World S P}
      → Step S P c view w w'
      → (ns : List Notice) → All (Tells w) ns
      → All (Tells w') ns
  Step-Tells st [] h = tt
  Step-Tells st (started op ∷ ns) (t, h) = (tt, Step-Tells st ns h)
  Step-Tells st (resolved shown msg ∷ ns) (a, h) = (
    record {
      op = a.op;
      stored = Step-final shown.operation_id a.op st a.stored a.ended;
      ended = a.ended;
      status = a.status;
      error_code = a.error_code;
      error_message = a.error_message;
      completed_at = a.completed_at;
    },
    Step-Tells st ns h,
  )

  abbrev pub IsTruthful : World S P → Type 0
  IsTruthful w = All (Tells w) w.notices

  won-Agrees :
      {before : String → Option Operation} {w' : World S P} (op : Operation) (upd : TerminalUpdate)
      → messages upd.status ≡ 1
      → Updated op.operation_id upd before (view w'.store)
      → Agrees w' (apply_terminal op upd)
  unfolding apply_terminal finish
  won-Agrees op upd ends u = record {
    op = finish upd u.at u.op;
    stored = rw (u.changed, eq_refl);
    ended = ended_of_messages upd.status ends;
    status = refl;
    error_code = refl;
    error_message = refl;
    completed_at = refl;
  }

  pub Step-IsTruthful : {w w' : World S P} → Step S P c view w w' → IsTruthful w → IsTruthful w'
  Step-IsTruthful {w} {w'} (quiet same notices) h =
      subst (All (Tells w')) (sym notices) (Step-Tells (quiet same notices) w.notices h)
  Step-IsTruthful {w} {w'} (announced op same notices) h = subst (All (Tells w')) (sym notices) (
      All-tell (Tells w') c (started op) w.notices
        (Step-Tells (announced op same notices) w.notices h) tt)
  Step-IsTruthful {w} {w'} (created op fresh status changed notices) h =
      subst (All (Tells w')) (sym notices)
        (Step-Tells (created op fresh status changed notices) w.notices h)
  Step-IsTruthful {w} {w'} (won op msg upd status u notices) h =
      subst (All (Tells w')) (sym notices) (
        All-tell (Tells w') c (resolved (apply_terminal op upd) msg) w.notices
          (Step-Tells (won op msg upd status u notices) w.notices h) (won-Agrees op upd status u))
  Step-IsTruthful {w} {w'} (lost id upd at status failed made u notices) h =
      subst (All (Tells w')) (sym notices)
        (Step-Tells (lost id upd at status failed made u notices) w.notices h)

  pub Reach-IsAnnounced :
      {w w' : World S P} → Reach S P c view w w' → IsAnnounced w → IsAnnounced w'
  Reach-IsAnnounced here h = h
  Reach-IsAnnounced (next r st) h = Step-IsAnnounced st (Reach-IsAnnounced r h)

  pub Reach-IsTruthful : {w w' : World S P} → Reach S P c view w w' → IsTruthful w → IsTruthful w'
  Reach-IsTruthful here h = h
  Reach-IsTruthful (next r st) h = Step-IsTruthful st (Reach-IsTruthful r h)

  -- Once an operation has ended, no step of any writer changes it.
  pub Reach-final :
      {w w' : World S P} (j : String) (op : Operation)
      → Reach S P c view w w'
      → view w.store j ≡ some op
      → is_running op.status ≡ false
      → view w'.store j ≡ some op
  Reach-final j op here e h = e
  Reach-final j op (next r st) e h = Step-final j op st (Reach-final j op r e h) h
