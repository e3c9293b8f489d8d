-- ===== src/Authz/Shadow.antt =====
-- internal/authz/shadow.go: two authorizers, of which the second is only observed. The timeout of the
-- shadow call is inside what the shadow answers.
use deploy_gateway.Base.{
  String, Bool, true, false, ◌≡◌, refl, List, [], ◌∷◌, ◌++◌, GoError, Result, ok, err, ap,
  if◌then◌else◌,
}
use deploy_gateway.Authz.{Request, Decision, Authorizer}

-- The log line of a call.
pub data ShadowLine : Type 0 where
  shadow_unavailable : Request → GoError → ShadowLine
  primary_unavailable : Request → ShadowLine
  disagrees : Request → Bool → Bool → String → ShadowLine
  agrees : Request → Bool → ShadowLine

abbrev same : Bool → Bool → Bool
same true b = b
same false true = false
same false false = true

-- The `switch`
unfoldable pub compare_decisions : Request → Result Decision → Result Decision → ShadowLine
compare_decisions req dec (err e) = shadow_unavailable req e
compare_decisions req (err e) (ok shadow) = primary_unavailable req
compare_decisions req (ok dec) (ok shadow) =
    if same shadow.allowed dec.allowed
    then agrees req dec.allowed
    else disagrees req dec.allowed shadow.allowed shadow.reason

module _ (A B : Authorizer) where
  pub record Shadow : Type 0 where
    pub primary : A.State
    pub shadow : B.State
    pub log : List ShadowLine

  unfoldable pub shadow_authorize : Request → Shadow → Result Decision × Shadow
  unfolding compare_decisions
  shadow_authorize req s =
      let (dec, primary) = A.authorize req s.primary in
      let (shadow_dec, shadow) = B.authorize req s.shadow in
      (
        dec,
        record {
          primary = primary;
          shadow = shadow;
          log = s.log ++ (compare_decisions req dec shadow_dec ∷ []);
        },
      )

  -- The `Authorizer` that `NewShadow` builds.
  abbrev pub new_shadow : Authorizer
  new_shadow = record { State = Shadow; authorize = shadow_authorize }

-- The decisions of an authorizer on a sequence of requests.
pub decide : (A : Authorizer) → A.State → List Request → List (Result Decision)
decide A s [] = []
decide A s (req ∷ reqs) = let (dec, s') = A.authorize req s in dec ∷ decide A s' reqs

-- Whatever the shadow answers, on any sequence of requests, the decisions are those of the primary
-- authorizer alone.
pub decide-new_shadow :
    (A B : Authorizer) (s : Shadow A B) (reqs : List Request)
    → decide (new_shadow A B) s reqs ≡ decide A s.primary reqs
unfolding decide shadow_authorize
decide-new_shadow A B s [] = refl
decide-new_shadow A B s (req ∷ reqs) =
    ap (λ (ds : List (Result Decision)). (A.authorize req s.primary).0 ∷ ds)
      (decide-new_shadow A B (shadow_authorize A B req s).1 reqs)
