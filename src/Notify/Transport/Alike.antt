-- ===== src/Notify/Transport/Alike.antt =====
-- Two servers that answer alike lead to the same outcome of a call.
use deploy_gateway.Base.{
  ℕ, zero, suc, ◌-◌, ◌+◌, ◌≡◌, refl, Bool, true, false, not, ◌||◌, GoError, Result, ok, err,
  new_error, ltb, eqb, if◌then◌else◌,
}
use deploy_gateway.Base.StateMonad.{State, pure, ◌>>=◌}
use deploy_gateway.Store.{Time}
use deploy_gateway.Notify.Transport.{
  ApiResponse, Payload, Api, is_retryable, is_success, delay_of, retry_base, last_error, sleep_ctx,
  after_once, passes, call,
}

-- Two states of two servers correspond: their clocks show the same, and attempts get the same answers.
pub record Alike (A B : Api) : Type 1 where
  pub Agree : A.State → B.State → Type 0
  pub clock-same : {h : A.State} {k : B.State} → Agree h k → A.clock h ≡ B.clock k
  pub elapse-Agree :
      (d : ℕ) {h : A.State} {k : B.State} → Agree h k → Agree (A.elapse d h) (B.elapse d k)
  pub once-same :
      (payload : Payload) {h : A.State} {k : B.State}
      → Agree h k
      → ((A.once payload h).0 ≡ (B.once payload k).0)
        × Agree (A.once payload h).1 (B.once payload k).1

module _ (A B : Api) (alike : Alike A B) (limit : Time) (payload : Payload) where
  abbrev Outcomes : Result ApiResponse × A.State → Result ApiResponse × B.State → Type 0
  Outcomes r s = (r.0 ≡ s.0) × alike.Agree r.1 s.1

  abbrev Same : State A.State (Result ApiResponse) → State B.State (Result ApiResponse) → Type 0
  Same m n = (h : A.State) (k : B.State) → alike.Agree h k → Outcomes (m h) (n k)

  pure-Same : (r : Result ApiResponse) → Same (pure r) (pure r)
  unfolding pure
  pure-Same r h k g = (refl, g)

  if-Same :
      (b : Bool) (m m' : State A.State (Result ApiResponse))
      (n n' : State B.State (Result ApiResponse))
      → Same m n
      → Same m' n'
      → Same (if b then m else m') (if b then n else n')
  if-Same true m m' n n' x y = x
  if-Same false m m' n n' x y = y

  module _ (next : State A.State (Result ApiResponse)) (next' : State B.State (Result ApiResponse))
      (f : Same next next') where
    slept-Same :
        (d : ℕ) (e : GoError)
        → Same
            (do slept ← sleep_ctx A limit d; if slept then next else pure (err e))
            (do slept ← sleep_ctx B limit d; if slept then next' else pure (err e))
    unfolding ◌>>=◌ sleep_ctx
    slept-Same d e h k g = rw (alike.clock-same g) (by_test (ltb (B.clock k + d) limit))
      where
        by_test :
            (b : Bool)
            → let r : Bool × A.State =
                if b then (true, A.elapse d h) else (false, A.elapse (limit - B.clock k) h) in
              let s : Bool × B.State =
                if b then (true, B.elapse d k) else (false, B.elapse (limit - B.clock k) k) in
              Outcomes
                ((if r.0 then next else pure (err e)) r.1)
                ((if s.0 then next' else pure (err e)) s.1)
        by_test true = f _ _ (alike.elapse-Agree d g)
        by_test false = pure-Same (err e) _ _ (alike.elapse-Agree (limit - B.clock k) g)

    after_once-Same :
        (left attempt : ℕ) (answer : Result (ApiResponse × ℕ))
        → Same
            (after_once A limit left attempt next payload answer)
            (after_once B limit left attempt next' payload answer)
    unfolding after_once
    after_once-Same left attempt (err e) =
        if-Same (eqb left 0) (pure (err e)) _ (pure (err e)) _ (pure-Same (err e))
          (slept-Same (delay_of attempt retry_base (err e)) e)
    after_once-Same left attempt (ok (resp, status)) =
        let e = last_error payload (ok (resp, status)) in
        if-Same (is_success (ok (resp, status))) (pure (ok resp)) _ (pure (ok resp)) _
          (pure-Same (ok resp))
          (if-Same (not (is_retryable (ok (resp, status))) || eqb left 0) (pure (err e)) _
            (pure (err e)) _ (pure-Same (err e))
            (slept-Same (delay_of attempt retry_base (ok (resp, status))) e))

  passes-Same :
      (left attempt : ℕ)
      → Same (passes A limit left attempt payload) (passes B limit left attempt payload)
  unfolding passes ◌>>=◌
  passes-Same zero attempt h k g =
      let (same, g') = alike.once-same payload g in
      rw same (
        after_once-Same (pure (err (new_error ""))) (pure (err (new_error ""))) (pure-Same _) 0
          attempt (B.once payload k).0 _ _ g')
  passes-Same (suc left) attempt h k g =
      let (same, g') = alike.once-same payload g in
      rw same (
        after_once-Same (passes A limit left (suc attempt) payload)
          (passes B limit left (suc attempt) payload) (passes-Same left (suc attempt)) (suc left)
          attempt (B.once payload k).0 _ _ g')

  pub call-Same :
      (h : A.State) (k : B.State)
      → alike.Agree h k
      → ((call A limit payload h).0 ≡ (call B limit payload k).0)
        × alike.Agree (call A limit payload h).1 (call B limit payload k).1
  unfolding call
  call-Same h k g = passes-Same 2 1 h k g
