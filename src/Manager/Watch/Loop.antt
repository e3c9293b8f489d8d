-- ===== src/Manager/Watch/Loop.antt =====
-- The loop ends, given a round for each second up to the deadline.
use deploy_gateway.Base.{
  ℕ, zero, suc, ◌+◌, ◌*◌, ◌≤◌, ◌≡◌, refl, inl, inr, true, Bool, Bool-cases, String, Option, List,
  Result, ok, err, arith, ltb, le→leb, min,
}
use deploy_gateway.Base.StateMonad.{◌>>=◌}
use deploy_gateway.Store.{second, Operation}
use deploy_gateway.Store.Api.{Store}
use deploy_gateway.Kube.{WatchObject}
use deploy_gateway.Manager.Platform.{Platform, IsTimely}
use deploy_gateway.Manager.World.{Config, World, M, on_platform}
use deploy_gateway.Manager.Watch.{
  max_backoff, reconnect, after_watch, watch_round, watch_loop, watch_rollout, sleep_ctx,
  sleep_ctx_from, ctx_done, deadline_of, grace,
}
use deploy_gateway.Manager.Watch.Ends.{Ends, ends_rules}

module _ (S : Store) (P : Platform) (c : Config) (timely : IsTimely P) where
  abbrev EndsFrom : ℕ → M S P Bool → Type 0
  EndsFrom = Ends S P c timely

  -- A sleep that is not cut short moves the clock on by the backoff.
  module _ (again : ℕ → M S P Bool) (lo : ℕ)
      (again-Ends : (b : ℕ) → second ≤ b → EndsFrom (lo + second) (again b)) (op : Operation)
      (msg : Option ℕ) (limit backoff : ℕ) (slow : second ≤ backoff) where
    reconnect-Ends :
        (message : String) → EndsFrom lo (reconnect S P c again op msg limit backoff message)
    unfolding reconnect sleep_ctx on_platform ◌>>=◌
    reconnect-Ends message = record {
      at = λ w h. elim (Bool-cases (ltb (P.clock w.platform + backoff) limit)) [
        | inl e ↦
            rw (e, sleep_ctx_from)
              ((again-Ends (min (2 * backoff) max_backoff) (omega arith)).at _
                (omega (arith, timely.clock-elapse backoff w.platform)))
        | inr e ↦ rw (e, sleep_ctx_from) refl
      ];
    }

    after_watch-Ends :
        (watched : Result (List WatchObject))
        → EndsFrom lo (after_watch S P c again op msg limit backoff watched)
    unfolding after_watch
    after_watch-Ends (ok events) = search (ends_rules, reconnect-Ends)
    after_watch-Ends (err e) = search reconnect-Ends

    watch_round-Ends : EndsFrom lo (watch_round S P c again op msg limit backoff)
    unfolding watch_round ctx_done
    watch_round-Ends = search (ends_rules, after_watch-Ends) depth 9

  -- A round that begins at the deadline or later is the last.
  watch_round-Ends_late :
      (again : ℕ → M S P Bool) (op : Operation) (msg : Option ℕ) (limit backoff : ℕ)
      → EndsFrom limit (watch_round S P c again op msg limit backoff)
  unfolding watch_round ctx_done ◌>>=◌
  watch_round-Ends_late again op msg limit backoff = record { at = λ w h. rw (le→leb _ _ h) }

  watch_loop-Ends :
      (fuel lo : ℕ) (op : Operation) (msg : Option ℕ) (limit backoff : ℕ)
      → limit ≤ lo + fuel * second
      → second ≤ backoff
      → EndsFrom lo (watch_loop S P c (suc fuel) op msg limit backoff)
  unfolding watch_loop
  watch_loop-Ends zero lo op msg limit backoff room slow = record {
    at = λ w h.
        (watch_round-Ends_late (watch_loop S P c zero op msg limit) op msg limit backoff).at w
          (omega arith);
  }
  watch_loop-Ends (suc fuel) lo op msg limit backoff room slow =
      watch_round-Ends (watch_loop S P c (suc fuel) op msg limit) lo
        (λ b hb. watch_loop-Ends fuel (lo + second) op msg limit b (omega arith) hb) op msg limit
        backoff slow

  -- Over a clock that never runs back and sleeps that take their time, a watcher ends: with one round
  -- more than there are seconds up to its deadline, the rollout's own and two minutes of grace, the
  -- loop never runs out, whatever the cluster answers.
  pub watch_rollout_ends :
      (fuel : ℕ) (op : Operation) (msg : Option ℕ) (w : World S P)
      → deadline_of S P c (P.get_deployment op.namespace op.deployment w.platform).0 + grace
        ≤ fuel * second
      → (watch_rollout S P c (suc fuel) op msg w).0 ≡ true
  unfolding watch_rollout on_platform ◌>>=◌
  watch_rollout_ends fuel op msg w room =
      let start = P.clock (P.get_deployment op.namespace op.deployment w.platform).1 in
      (watch_loop-Ends fuel start op msg _ second (omega arith) (omega arith)).at _ (omega arith)
