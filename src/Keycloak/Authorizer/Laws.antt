-- ===== src/Keycloak/Authorizer/Laws.antt =====
-- What an answer of the authorizer rests on, over histories of requests and of time passing.
use mathlib.Core.Path.{subst}
use mathlib.Core.List.{append_assoc}
use deploy_gateway.Base.{
  ℕ, ◌+◌, ◌≤◌, ◌≡◌, ◌==◌, refl, sym, ◌∙◌, GoError, inl, inr, String, Bool, true, false, some, List,
  [], ◌∷◌, ◌++◌, Result, ok, err, arith, eq_iff, Any, Any-append_left, Any-append_right,
  Option-cases, if◌then◌else◌,
}
use deploy_gateway.Base.Dict
use deploy_gateway.Base.Dict.{lookup-insert}
use deploy_gateway.Base.StateMonad.{pure, modify, ◌>>=◌, ◌>>◌}
use deploy_gateway.Store.{Time}
use deploy_gateway.Authz.{Request, Decision}
use deploy_gateway.Keycloak.Cache
use deploy_gateway.Keycloak.Cache.Laws.{get_aged-Hit}
use deploy_gateway.Keycloak.Http.{Config, Server}
use deploy_gateway.Keycloak.Client.{Client, decision_ttl}
use deploy_gateway.Keycloak.Authorizer.History.{
  Allows, Permit, Made, Supports, Event, asks, passes, move, happen, live, given, given_by,
  given_in, permits,
}
use deploy_gateway.Keycloak.Authorizer.{
  decision_stale_for, decision_key, permitted, evaluate, Gate, new_gate, hit, on_client,
  keep_permit, after_evaluation, without_fresh, authorize,
}

module _ (H : Server) (cfg : Config) where
  -- Whatever is cached is a permit of the history, at its time.
  pub record Backed (ps : List Permit) (g : Gate H cfg) : Type 0 where
    pub ttl : g.decisions.ttl ≡ decision_ttl
    pub stale_for : g.decisions.stale_for ≡ decision_stale_for
    pub entry :
        (key : String) (e : Cache.Entry Bool)
        → Dict.lookup key g.decisions.entries ≡ some e
        → (e.value ≡ true) × Any (Made key e.stored_at) ps

  Made→Supports :
      (key : String) (at now : Time) (ps : List Permit)
      → now ≤ at + (decision_ttl + decision_stale_for)
      → Any (Made key at) ps
      → Any (Supports key now) ps
  Made→Supports key at now [] h m = elim m [ ]
  Made→Supports key at now (p ∷ ps) h (inl m) = inl (m.0, ground arith)
  Made→Supports key at now (p ∷ ps) h (inr m) = inr (Made→Supports key at now ps h m)

  hit-Supports :
      (ps : List Permit) (g : Gate H cfg) (key : String) (max_age : ℕ) (now : Time)
      → Backed ps g
      → max_age ≤ decision_ttl + decision_stale_for
      → hit H cfg (Cache.get_aged g.decisions key max_age now) ≡ true
      → Any (Supports key now) ps
  hit-Supports ps g key max_age now b le h =
      elim (Option-cases (Cache.get_aged g.decisions key max_age now)) [
        | inl e ↦ cc
        | inr (v, e) ↦
            let x = get_aged-Hit g.decisions key max_age now e in
            Made→Supports key x.entry.stored_at now ps (let age = x.age in omega arith)
              (b.entry key x.entry x.found).1
      ]

  -- More permits, and another state of the client, change nothing in the cache.
  Backed-client :
      (ps : List Permit) (g : Gate H cfg) (c : Client H)
      → Backed ps g
      → Backed ps (record g { client = c })
  Backed-client ps g c b = record { ttl = b.ttl; stale_for = b.stale_for; entry = b.entry }

  Backed-more :
      (ps qs : List Permit) (g : Gate H cfg) (c : Client H)
      → Backed ps g
      → Backed (ps ++ qs) (record g { client = c })
  Backed-more ps qs g c b = record {
    ttl = b.ttl;
    stale_for = b.stale_for;
    entry = λ key e found.
        let (v, m) = b.entry key e found in (v, Any-append_left (Made key e.stored_at) ps qs m);
  }

  -- The entry under a key behind a put of `true`.
  entry-put :
      (ps qs : List Permit) (g : Gate H cfg) (key j : String) (at : Time) (e : Cache.Entry Bool)
      (b : Bool)
      → (key == j) ≡ b
      → Backed ps g
      → Any (Made key at) qs
      → (if b
          then some (record { value = true; stored_at = at })
          else Dict.lookup j g.decisions.entries)
        ≡ some e
      → (e.value ≡ true) × Any (Made j e.stored_at) (ps ++ qs)
  entry-put ps qs g key j at e true same back new found =
      let key_is : key ≡ j = (eq_iff key j).0 same in
      let at_is : at ≡ e.stored_at = cc in
      let m : Any (Made j e.stored_at) qs =
        subst (λ k. Any (Made k e.stored_at) qs) key_is
          (subst (λ t. Any (Made key t) qs) at_is new) in
      (cc, Any-append_right (Made j e.stored_at) ps qs m)
  entry-put ps qs g key j at e false same back new found =
      let (v, m) = back.entry j e found in (v, Any-append_left (Made j e.stored_at) ps qs m)

  Backed-keep_permit :
      (ps qs : List Permit) (g : Gate H cfg) (key : String)
      → Any (Made key (H.clock g.client.server)) qs
      → Backed ps g
      → Backed (ps ++ qs) (keep_permit H cfg key g)
  unfolding keep_permit Cache.put
  Backed-keep_permit ps qs g key new b = record {
    ttl = b.ttl;
    stale_for = b.stale_for;
    entry = λ j e found.
        entry-put ps qs g key j (H.clock g.client.server) e (key == j) refl b new
          (sym (lookup-insert j key _ g.decisions.entries) ∙ found);
  }

  -- What one evaluation leaves and answers.
  record Sound (ps : List Permit) (req : Request) (r : Result Decision × Gate H cfg) : Type 0 where
    backed : Backed ps r.1
    rests : Allows r.0 → Any (Supports (decision_key req) (H.clock r.1.client.server)) ps

  module _ (ps : List Permit) (req : Request) (g : Gate H cfg) (b : Backed ps g) where
    stale-Sound :
        (e : GoError) (stale : Bool)
        → hit H cfg (Cache.get_stale g.decisions (decision_key req) (H.clock g.client.server))
          ≡ stale
        → Sound (ps ++ []) req ((if stale then ok permitted else err e), g)
    unfolding Cache.get_stale
    stale-Sound e true h = record {
      backed = Backed-more ps [] g g.client b;
      rests = λ _. Any-append_left (Supports (decision_key req) (H.clock g.client.server)) ps [] (
          hit-Supports ps g (decision_key req) _ _ b
            (let t = b.ttl in let s = b.stale_for in omega arith) h);
    }
    stale-Sound e false h = record {
      backed = Backed-more ps [] g g.client b;
      rests = λ no. elim no [ ];
    }

    answer-Sound :
        (dec : Decision) (allowed : Bool)
        → dec.allowed ≡ allowed
        → Sound
            (ps ++ (if allowed then (decision_key req, H.clock g.client.server) ∷ [] else []))
            req
            ((if allowed
                then (do modify (keep_permit H cfg (decision_key req)); pure (ok dec))
                else pure (ok dec))
              g)
    unfolding ◌>>=◌ keep_permit
    answer-Sound dec true h = record {
      backed = Backed-keep_permit ps _ g (decision_key req) (inl (refl, refl)) b;
      rests = λ _.
          Any-append_right (Supports (decision_key req) (H.clock g.client.server)) ps _
            (inl (refl, omega arith));
    }
    answer-Sound dec false h = record {
      backed = Backed-more ps [] g g.client b;
      rests = λ yes_it. cc;
    }

    after_evaluation-Sound :
        (result : Result Decision)
        → Sound
            (ps ++ given H cfg (decision_key req) result (H.clock g.client.server))
            req
            (after_evaluation H cfg (decision_key req) result g)
    unfolding after_evaluation given ◌>>=◌
    after_evaluation-Sound (err e) = stale-Sound e _ refl
    after_evaluation-Sound (ok dec) = answer-Sound dec dec.allowed refl

  without_fresh-Sound :
      (ps : List Permit) (req : Request) (g : Gate H cfg) (fresh : Bool)
      → Backed ps g
      → hit H cfg (Cache.get g.decisions (decision_key req) (H.clock g.client.server)) ≡ fresh
      → Sound
          (ps
            ++ (if fresh
                then []
                else given H cfg
                    (decision_key req)
                    (evaluate H cfg req g.client).0
                    (H.clock (evaluate H cfg req g.client).1.server)))
          req
          (without_fresh H cfg req fresh g)
  unfolding without_fresh ◌>>=◌ on_client Cache.get
  without_fresh-Sound ps req g true b h = record {
    backed = Backed-more ps [] g g.client b;
    rests = λ _.
        Any-append_left (Supports (decision_key req) (H.clock g.client.server)) ps []
          (hit-Supports ps g (decision_key req) _ _ b (let t = b.ttl in omega arith) h);
  }
  without_fresh-Sound ps req g false b h =
      let (result, c) = evaluate H cfg req g.client in
      after_evaluation-Sound ps req (record g { client = c }) (Backed-client ps g c b) result

  authorize-Sound :
      (ps : List Permit) (req : Request) (g : Gate H cfg)
      → Backed ps g
      → Sound (ps ++ given_by H cfg req g) req (authorize H cfg req g)
  unfolding authorize given_by ◌>>=◌
  authorize-Sound ps req g b = without_fresh-Sound ps req g _ b refl

  live-Backed :
      (ps : List Permit) (g : Gate H cfg) (es : List (Event H))
      → Backed ps g
      → Backed (ps ++ permits H cfg g es) (live H cfg g es)
  unfolding live happen permits given_in move
  live-Backed ps g [] b = Backed-more ps [] g g.client b
  live-Backed ps g (asks req ∷ es) b =
      subst (λ qs. Backed qs (live H cfg (authorize H cfg req g).1 es))
        (append_assoc ps (given_by H cfg req g) _)
        (live-Backed (ps ++ given_by H cfg req g) (authorize H cfg req g).1 es
          (authorize-Sound ps req g b).backed)
  live-Backed ps g (passes h ∷ es) b = live-Backed ps (move H cfg g h) es (Backed-client ps g _ b)

  -- In every history of requests and of changes outside, a request is allowed only on a permit that
  -- Keycloak gave for a request with the same key, in this call or earlier in the history, and not more
  -- than 330 seconds (the time to live and the period of grace) ago. The permits of a history are
  -- those that an evaluation returned; answers from the cache are none.
  pub authorize-Supports :
      (h : H.State) (es : List (Event H)) (req : Request)
      → Allows (authorize H cfg req (live H cfg (new_gate H cfg h) es)).0
      → Any
          (Supports
            (decision_key req)
            (H.clock (authorize H cfg req (live H cfg (new_gate H cfg h) es)).1.client.server))
          (permits H cfg (new_gate H cfg h) es
            ++ given_by H cfg req (live H cfg (new_gate H cfg h) es))
  unfolding new_gate Cache.new_cache Dict.lookup
  authorize-Supports h es req allowed =
      (authorize-Sound (permits H cfg (new_gate H cfg h) es) req _ (
          live-Backed [] (new_gate H cfg h) es
            (record { ttl = refl; stale_for = refl; entry = λ key e found. cc }))).rests
        allowed
