-- ===== src/Manager/Steps/Exact.antt =====
-- No terminal message is forgotten, if no response of the store is lost.
use deploy_gateway.Base.{String, ap, ◌∙◌, eq_iff, ◌≡◌, refl, some, arith, true, eq_refl, sym}
use deploy_gateway.Store.{finish}
use deploy_gateway.Store.Api.{Store, View, IsFinal}
use deploy_gateway.Manager.Platform.{Platform}
use deploy_gateway.Manager.World.{Config, World}
use deploy_gateway.Manager.Resolve.{apply_terminal}
use deploy_gateway.Manager.Steps.{Step, quiet, announced, created, won, lost, Reach, here, next}
use deploy_gateway.Manager.Steps.Invariant.{
  terminal_notices, expected, terminal_notices-resolved, ended_of_messages, tell-started,
}

module _ (S : Store) (P : Platform) (c : Config) (view : View S) where
  -- Every operation has just the terminal messages that its status asks for.
  pub record IsToldExactly (w : World S P) : Type 0 where
    pub exactly : (j : String) → terminal_notices j w.notices ≡ expected (view w.store j)

  -- If the errors of the store are final, no write was lost.
  Step-IsToldExactly :
      {w w' : World S P}
      → IsFinal S view
      → c.notify_enabled ≡ true
      → Step S P c view w w'
      → IsToldExactly w
      → IsToldExactly w'
  unfolding finish apply_terminal
  Step-IsToldExactly {w} {w'} final enabled (quiet same notices) h = record {
    exactly = λ j. rw (notices, same j) (h.exactly j);
  }
  Step-IsToldExactly {w} {w'} final enabled (announced op same notices) h = record {
    exactly = λ j. rw (notices, tell-started S P c view, same j) (h.exactly j);
  }
  Step-IsToldExactly {w} {w'} final enabled (created op fresh status changed notices) h = record {
    exactly = λ j.
        rw (notices, changed j)
          (ground (arith, h.exactly j, h.exactly op.operation_id, eq_iff op.operation_id j));
  }
  Step-IsToldExactly {w} {w'} final enabled (won op msg upd status u notices) h = record {
    exactly = λ j.
        rw (notices, enabled, terminal_notices-resolved, u.changed j)
          (ground (arith, h.exactly j, h.exactly op.operation_id, eq_iff op.operation_id j));
  }
  Step-IsToldExactly {w} {w'} final enabled (lost id upd at status failed made u notices) h =
      let same : view w'.store id ≡ view w.store id =
        ap (λ s. view s id) made ∙ final.view-update_refused id upd at w.store id failed in
      let now : some (finish upd u.at u.op) ≡ some u.op =
        sym (u.changed id ∙ rw (eq_refl id) refl) ∙ (same ∙ u.found) in
      let status_is : upd.status ≡ u.op.status = cc in
      absurd (let over = ended_of_messages upd.status status in let run = u.was_running in cc)

  pub Reach-IsToldExactly :
      {w w' : World S P}
      → IsFinal S view
      → c.notify_enabled ≡ true
      → Reach S P c view w w'
      → IsToldExactly w
      → IsToldExactly w'
  Reach-IsToldExactly final enabled here h = h
  Reach-IsToldExactly final enabled (next r st) h =
      Step-IsToldExactly final enabled st (Reach-IsToldExactly final enabled r h)
