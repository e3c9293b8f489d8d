-- ===== src/Notify/Transport/Clock.antt =====
-- A call ends by the deadline of its context.
use deploy_gateway.Base.{
  ℕ, zero, suc, ◌-◌, ◌+◌, ◌≤◌, ◌≡◌, refl, Bool, true, false, not, ◌||◌, GoError, Result, ok, err,
  new_error, arith, ltb, eqb, if◌then◌else◌,
}
use deploy_gateway.Base.StateMonad.{State, pure, ◌>>=◌}
use deploy_gateway.Store.{Time}
use deploy_gateway.Notify.Transport.{
  ApiResponse, Payload, Api, is_retryable, is_success, delay_of, retry_base, last_error, sleep_ctx,
  after_once, passes, call,
}

-- How late things are: a sleep wakes up by `lag` after its time, and an attempt that begins before
-- some time, not before the deadline of its context, is over by `lag` after it.
pub record Bounded (A : Api) (limit lag : Time) : Type 0 where
  pub elapse-clock : (d : ℕ) (h : A.State) → A.clock (A.elapse d h) ≤ A.clock h + d + lag
  pub once-clock :
      (payload : Payload) (h : A.State) (t : Time)
      → limit ≤ t
      → A.clock h ≤ t
      → A.clock (A.once payload h).1 ≤ t + lag

-- How late a call can be, with this many attempts left behind the next one: each attempt once, and
-- each sleep once.
abbrev pub lateness : ℕ → Time → Time
lateness zero lag = lag
lateness (suc left) lag = lag + (lag + lateness left lag)

module _ (A : Api) (limit lag : Time) (payload : Payload) (bounded : Bounded A limit lag) where
  abbrev By : Time → Result ApiResponse × A.State → Type 0
  By t r = A.clock r.1 ≤ t

  either-By :
      (t : Time) (b : Bool) (m n : State A.State (Result ApiResponse)) (h : A.State)
      → By t (m h)
      → By t (n h)
      → By t ((if b then m else n) h)
  either-By t true m n h x y = x
  either-By t false m n h x y = y

  -- What follows the sleep is over by `more` after any time at which it has begun.
  module _ (next : State A.State (Result ApiResponse)) (more : Time)
      (f : (k : A.State) (t : Time) → limit ≤ t → A.clock k ≤ t → By (t + more) (next k)) where
    slept-By :
        (d : ℕ) (e : GoError) (h : A.State) (t : Time)
        → limit ≤ t
        → A.clock h ≤ t
        → By
            (t + lag + more)
            ((do slept ← sleep_ctx A limit d; if slept then next else pure (err e)) h)
    unfolding ◌>>=◌ sleep_ctx pure
    slept-By d e h t late early = by_test (ltb (A.clock h + d) limit) refl
      where
        by_test :
            (b : Bool)
            → ltb (A.clock h + d) limit ≡ b
            → let r : Bool × A.State =
                if b then (true, A.elapse d h) else (false, A.elapse (limit - A.clock h) h) in
              By (t + lag + more) ((if r.0 then next else pure (err e)) r.1)
        by_test true x =
            let in_time : A.clock h + d ≤ limit = ground arith in
            let woken = bounded.elapse-clock d h in
            f (A.elapse d h) (t + lag) (omega arith) (omega arith)
        by_test false x = let woken = bounded.elapse-clock (limit - A.clock h) h in omega arith

    retried-By :
        (last : Bool) (d : ℕ) (e : GoError) (h : A.State) (t : Time)
        → limit ≤ t
        → A.clock h ≤ t
        → By (t + lag + more) (
            (if last
                then pure (err e)
                else (do slept ← sleep_ctx A limit d; if slept then next else pure (err e)))
              h)
    unfolding pure
    retried-By true d e h t late early = omega arith
    retried-By false d e h t late early = slept-By d e h t late early

    after_once-By :
        (left attempt : ℕ) (answer : Result (ApiResponse × ℕ)) (h : A.State) (t : Time)
        → limit ≤ t
        → A.clock h ≤ t
        → By (t + lag + more) (after_once A limit left attempt next payload answer h)
    unfolding after_once pure
    after_once-By left attempt (err e) h t late early =
        retried-By (eqb left 0) (delay_of attempt retry_base (err e)) e h t late early
    after_once-By left attempt (ok (resp, status)) h t late early =
        either-By (t + lag + more) (is_success (ok (resp, status))) (pure (ok resp)) _ h
          (omega arith)
          (retried-By (not (is_retryable (ok (resp, status))) || eqb left 0)
            (delay_of attempt retry_base (ok (resp, status)))
            (last_error payload (ok (resp, status))) h t late early)

  -- No attempt is left, so no sleep comes.
  last_once-By :
      (attempt : ℕ) (next : State A.State (Result ApiResponse)) (answer : Result (ApiResponse × ℕ))
      (h : A.State) (t : Time)
      → A.clock h ≤ t
      → By t (after_once A limit 0 attempt next payload answer h)
  unfolding after_once pure
  last_once-By attempt next (err e) h t early = early
  last_once-By attempt next (ok (resp, status)) h t early =
      either-By t (is_success (ok (resp, status))) (pure (ok resp)) _ h early
        (gives_up (not (is_retryable (ok (resp, status)))) _ _ early)
    where
      gives_up :
          (b : Bool) (m n : State A.State (Result ApiResponse))
          → By t (m h)
          → By t ((if b || true then m else n) h)
      gives_up true m n x = x
      gives_up false m n x = x

  passes-By :
      (left attempt : ℕ) (h : A.State) (t : Time)
      → limit ≤ t
      → A.clock h ≤ t
      → By (t + lateness left lag) (passes A limit left attempt payload h)
  unfolding passes ◌>>=◌ pure
  passes-By zero attempt h t late early =
      last_once-By attempt (pure (err (new_error ""))) (A.once payload h).0 (A.once payload h).1
        (t + lag) (bounded.once-clock payload h t late early)
  passes-By (suc left) attempt h t late early =
      let r =
        after_once-By (passes A limit left (suc attempt) payload) (lateness left lag)
          (passes-By left (suc attempt)) (suc left) attempt (A.once payload h).0
          (A.once payload h).1 (t + lag) (omega arith)
          (bounded.once-clock payload h t late early) in
      omega (arith, r)

  -- A call that starts by the deadline is over by five lags after it: three attempts and two sleeps.
  pub call-InTime :
      (h : A.State)
      → A.clock h ≤ limit
      → A.clock (call A limit payload h).1 ≤ limit + lateness 2 lag
  unfolding call
  call-InTime h early = passes-By 2 1 h limit (omega arith) early
