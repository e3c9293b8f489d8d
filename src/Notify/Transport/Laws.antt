-- ===== src/Notify/Transport/Laws.antt =====
-- How often a call tries, and when it succeeds.
use mathlib.Core.Path.{subst}
use deploy_gateway.Base.{
  ℕ, zero, suc, ◌-◌, ◌+◌, ◌≡◌, refl, Bool, true, false, not, ◌||◌, GoError, Result, ok, err,
  new_error, arith, ltb, eqb, if◌then◌else◌,
}
use deploy_gateway.Base.StateMonad.{State, pure, ◌>>=◌}
use deploy_gateway.Store.{Time}
use deploy_gateway.Notify.Transport.{
  ApiResponse, Payload, Api, max_attempts, is_retryable, is_success, delay_of, retry_base,
  last_error, sleep_ctx, after_once, passes, call,
}

module _ (A : Api) (payload : Payload) where
  -- From one state to another by so many attempts at most, with sleeps between.
  pub data Tried : ℕ → A.State → A.State → Type 0 where
    over : {n : ℕ} (h : A.State) → Tried n h h
    posts :
        {n : ℕ} (h : A.State) {h' : A.State} → Tried n (A.once payload h).1 h' → Tried (suc n) h h'
    sleeps : {n : ℕ} (d : ℕ) (h : A.State) {h' : A.State} → Tried n (A.elapse d h) h' → Tried n h h'

  -- The answer of an attempt of the call that the server took.
  pub record Accepted (resp : ApiResponse) : Type 0 where
    pub before : A.State
    pub answer : (A.once payload before).0 ≡ ok (resp, 200)
    pub ok_is : resp.ok ≡ true

module _ (A : Api) (limit : Time) (payload : Payload) where
  -- What a part of the call ends in, from a state: few attempts, and a success only if the server took
  -- one of them.
  record Fine (n : ℕ) (h : A.State) (r : Result ApiResponse × A.State) : Type 0 where
    tried : Tried A payload n h r.1
    took : (resp : ApiResponse) → r.0 ≡ ok resp → Accepted A payload resp

  Fine-err : (n : ℕ) (e : GoError) (h : A.State) → Fine n h (err e, h)
  Fine-err n e h = record { tried = over h; took = λ resp k. cc }

  Fine-sleep :
      (n d d' : ℕ) (e : GoError) (next : State A.State (Result ApiResponse)) (h : A.State)
      (b : Bool)
      → ((k : A.State) → Fine n k (next k))
      → let r : Bool × A.State = if b then (true, A.elapse d h) else (false, A.elapse d' h) in
        Fine n h ((if r.0 then next else pure (err e)) r.1)
  unfolding ◌>>=◌
  Fine-sleep n d d' e next h true f =
      let x = f (A.elapse d h) in record { tried = sleeps d h x.tried; took = x.took }
  Fine-sleep n d d' e next h false f =
      let x = Fine-err n e (A.elapse d' h) in record { tried = sleeps d' h x.tried; took = x.took }

  module _ (n left attempt : ℕ) (next : State A.State (Result ApiResponse))
      (f : (k : A.State) → Fine n k (next k)) where
    retried :
        (answer : Result (ApiResponse × ℕ)) (e : GoError) (h : A.State) (last : Bool)
        → Fine n h (
            (if last then pure (err e) else (do
              slept ← sleep_ctx A limit (delay_of attempt retry_base answer)
              if slept then next else pure (err e)))
              h)
    unfolding ◌>>=◌ sleep_ctx
    retried answer e h true = Fine-err n e h
    retried answer e h false =
        Fine-sleep n _ (limit - A.clock h) e next h
          (ltb (A.clock h + delay_of attempt retry_base answer) limit) f

    answered :
        (resp : ApiResponse) (status : ℕ) (before h : A.State) (good : Bool)
        → (A.once payload before).0 ≡ ok (resp, status)
        → is_success (ok (resp, status)) ≡ good
        → Fine n h (
            (if good
                then pure (ok resp)
                else if not (is_retryable (ok (resp, status))) || eqb left 0
                then pure (err (last_error payload (ok (resp, status))))
                else (do
                  slept ← sleep_ctx A limit (delay_of attempt retry_base (ok (resp, status)))
                  if slept then next else pure (err (last_error payload (ok (resp, status))))))
              h)
    unfolding ◌>>=◌
    answered resp status before h true got e = record {
      tried = over h;
      took = λ r k.
          let status_is : status ≡ 200 = ground arith in
          let same : resp ≡ r = cc in
          let good : resp.ok ≡ true = ground arith in
          subst (Accepted A payload) same (record {
            before = before;
            answer = subst (λ m. (A.once payload before).0 ≡ ok (resp, m)) status_is got;
            ok_is = good;
          });
    }
    answered resp status before h false got e = retried (ok (resp, status)) _ h _

    after_once-Fine :
        (before h : A.State) (answer : Result (ApiResponse × ℕ))
        → (A.once payload before).0 ≡ answer
        → Fine n h (after_once A limit left attempt next payload answer h)
    unfolding after_once
    after_once-Fine before h (err e) got = retried (err e) e h (eqb left 0)
    after_once-Fine before h (ok (resp, status)) got = answered resp status before h _ got refl

  passes-Fine :
      (left attempt : ℕ) (h : A.State) → Fine (suc left) h (passes A limit left attempt payload h)
  unfolding passes ◌>>=◌
  passes-Fine zero attempt h =
      let x =
        after_once-Fine 0 0 attempt (pure (err (new_error ""))) (λ k. Fine-err 0 _ k) h
          (A.once payload h).1 (A.once payload h).0 refl in
      record { tried = posts h x.tried; took = x.took }
  passes-Fine (suc left) attempt h =
      let x =
        after_once-Fine (suc left) (suc left) attempt (passes A limit left (suc attempt) payload)
          (passes-Fine left (suc attempt)) h (A.once payload h).1 (A.once payload h).0 refl in
      record { tried = posts h x.tried; took = x.took }

  -- A call of the Bot API makes three attempts at most, and it succeeds only with an answer of the
  -- server to this payload that has the status 200 and says that it is ok.
  pub call-Accepted :
      (h : A.State)
      → Tried A payload max_attempts h (call A limit payload h).1
        × ((resp : ApiResponse) → (call A limit payload h).0 ≡ ok resp → Accepted A payload resp)
  unfolding call
  call-Accepted h = let x = passes-Fine 2 1 h in (x.tried, x.took)
