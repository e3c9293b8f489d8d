-- ===== src/Store/Dynamo/Race.antt =====
-- internal/store/dynamo.go, UpdateTerminal: several writers that end one operation.
use deploy_gateway.Base.{
  ◌≡◌, refl, true, false, Option, none, some, List, [], ◌∷◌, All, ◌⊎◌, inl, inr, GoError, ok,
}
use deploy_gateway.Store.{Operation, is_running, TerminalUpdate, finish}
use deploy_gateway.Store.Dynamo.{Key, Table, update_keys_for, update_found}
use deploy_gateway.Store.Dynamo.Conditional.{
  IsRunning, Conditional, Written, Writer, first_fit, declined, went_wrong, unheard, made, IsOf,
  Ends, update_found-Effect,
}

abbrev pub keep_winner :
    Writer → Option (Option GoError) → List TerminalUpdate → List TerminalUpdate
keep_winner w (some none) won = w.update ∷ won
keep_winner w _ won = won

-- A sequence of writers that come to their UpdateItem one after the other, each by `update_found`; the
-- updates that were told to be made.
unfoldable pub race : (T : Table) → List Writer → T.State → List TerminalUpdate × T.State
race T [] s = ([], s)
race T (w ∷ ws) s =
    let (e, s') = update_found T w.update (some (ok w.found)) s in
    let (won, last) = race T ws s' in (keep_winner w e won, last)

module _ (T : Table) (c : Conditional T) (key : Key) (op : Operation)
    (fit : first_fit T c (update_keys_for op) ≡ some key) where
  race-ended :
      (ws : List Writer) (s : T.State)
      → All (IsOf T c key op fit) ws
      → ¬ IsRunning (c.row key s)
      → race T ws s ≡ ([], s)
  unfolding race
  race-ended [] s h n = refl
  race-ended (w ∷ ws) s (h, hs) n =
      let (r, same, effect) = update_found-Effect T c key op fit w s h in
      elim effect [
        | declined _ e ↦ rw (same, e, race-ended ws s hs n) refl
        | went_wrong _ e ↦ rw (same, e, race-ended ws s hs n) refl
        | unheard _ w e ↦ absurd (n (rw w.found w.was_running))
        | made w e ↦ absurd (n (rw w.found w.was_running))
      ]

  update-not_IsRunning :
      {upd : TerminalUpdate} {s s' : T.State}
      → Written T c.row key upd s s'
      → is_running upd.status ≡ false
      → ¬ IsRunning (c.row key s')
  unfolding finish
  update-not_IsRunning m t run = let stopped = rw m.written at run in cc

  -- What a race leaves: no update was made and no row changed, and if the row was running, then there
  -- was no writer or requests may go wrong; or one was made, of the row when it was running, and
  -- that is all that changed, though nobody may have heard of it.
  pub data Raced (ws : List Writer) (s : T.State) (r : List TerminalUpdate × T.State) : Type 0 where
    unwon :
        r.0 ≡ []
        → ((k : Key) → c.row k r.1 ≡ c.row k s)
        → (IsRunning (c.row key s) → (ws ≡ []) ⊎ (c.may_fail ≡ true))
        → Raced ws s r
    made_unheard :
        {upd : TerminalUpdate}
        → r.0 ≡ []
        → c.may_fail ≡ true
        → Written T c.row key upd s r.1
        → Raced ws s r
    won : {upd : TerminalUpdate} → r.0 ≡ upd ∷ [] → Written T c.row key upd s r.1 → Raced ws s r

  -- One more writer in front, whose request failed.
  Raced-failed :
      {w : Writer} {ws : List Writer} {s : T.State} {r : List TerminalUpdate × T.State}
      → (IsRunning (c.row key s) → c.may_fail ≡ true)
      → Raced ws s r
      → Raced (w ∷ ws) s r
  Raced-failed f (unwon e h _) = unwon e h (λ run. inr (f run))
  Raced-failed f (made_unheard e fails m) = made_unheard e fails m
  Raced-failed f (won e m) = won e m

  -- On a table of either key schema that makes an update under its condition, and whose requests may go
  -- wrong, before the update is made or after it, writers that have found the same row and come one
  -- after the other, each with a terminal status, end it at most once: just one update is reported
  -- as made, it was made of the row while that was running, and nothing else changed; or none is
  -- reported, and one was made so all the same, its response lost; or none was made and no row
  -- changed, which for a running row needs that there is no writer or that requests may go wrong.
  pub race-Raced :
      (ws : List Writer) (s : T.State)
      → All (IsOf T c key op fit) ws
      → All (Ends T c key op fit) ws
      → Raced ws s (race T ws s)
  unfolding race
  race-Raced [] s h t = unwon refl (λ k. refl) (λ run. inl refl)
  race-Raced (w ∷ ws) s (h, hs) (t, ts) =
      let (r, same, effect) = update_found-Effect T c key op fit w s h in
      elim effect [
        | declined n e ↦ rw (same, e) (Raced-failed (λ run. absurd (n run)) (race-Raced ws s hs ts))
        | went_wrong fails e ↦ rw (same, e) (Raced-failed (λ run. fails) (race-Raced ws s hs ts))
        | unheard {s' = s'} fails m e ↦
            rw (same, e, race-ended ws s' hs (update-not_IsRunning m t)) (made_unheard refl fails m)
        | made {s'} m e ↦ rw (same, e, race-ended ws s' hs (update-not_IsRunning m t)) (won refl m)
      ]
