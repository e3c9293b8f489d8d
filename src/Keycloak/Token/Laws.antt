-- ===== src/Keycloak/Token/Laws.antt =====
-- A token that is handed out has not expired.
use deploy_gateway.Base.{ℕ, ◌+◌, ◌<◌, String, ◌==◌, ◌≡◌, ◌⊎◌, false, Result, ok}
use deploy_gateway.Store.{Time}
use deploy_gateway.Keycloak.Http.{Config, Server}
use deploy_gateway.Keycloak.Token.{TokenSource, lifetime_of, token_url, token}

module _ (H : Server) (cfg : Config) where
  -- The token endpoint issued this token at this time, for so many seconds.
  pub record Issued (tok : String) (at : Time) (seconds : ℕ) : Type 0 where
    pub before : H.State
    pub answer :
        (H.post_token cfg (token_url H.path_escape cfg) before).0
        ≡ ok (record {
          status_code = 200;
          body = ok (record { access_token = tok; expires_in = seconds });
        })
    pub time : H.clock (H.post_token cfg (token_url H.path_escape cfg) before).1 ≡ at

  -- The cached token was issued, and its deadline is the one of its lifetime.
  pub record Origin (tok : String) (deadline : Time) : Type 0 where
    pub at : Time
    pub seconds : ℕ
    pub issued : Issued tok at seconds
    pub deadline_is : deadline ≡ at + lifetime_of seconds

  abbrev pub Sourced : TokenSource → Type 0
  Sourced t = (t.token == "") ≡ false → Origin t.token t.expires_at

  -- It is cached for later, and it has just come or is still before its deadline.
  pub record Live (tok : String) (now : Time) : Type 0 where
    pub at : Time
    pub seconds : ℕ
    pub issued : Issued tok at seconds
    pub live : (now ≡ at) ⊎ (now < at + lifetime_of seconds)

  -- What a call leaves in the source, and what it hands out at this time.
  pub record Good (now : Time) (r : Result String × TokenSource) : Type 0 where
    pub sourced : Sourced r.1
    pub live : (tok : String) → r.0 ≡ ok tok → Live tok now

  module _ (before : H.State) (t : TokenSource) (src : Sourced t) where
    abbrev answered : Time
    answered = H.clock (H.post_token cfg (token_url H.path_escape cfg) before).1

  -- The result of a call of `Token` and the time at its end.
  abbrev pub ended : Result String × TokenSource × H.State → Time
  ended r = H.clock r.2
