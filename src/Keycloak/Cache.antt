-- ===== src/Keycloak/Cache.antt =====
-- internal/keycloak/cache.go: a map with a time to live and a period of grace. Each call is one step
-- under the mutex; `now` is what the clock shows in it.
pub mod Laws
use deploy_gateway.Base.{ℕ, ◌+◌, ◌-◌, String, Option, none, some, [], ltb, if◌then◌else◌}
use deploy_gateway.Base.Dict
use deploy_gateway.Base.Dict.{Dict}
use deploy_gateway.Store.{Time}

pub record Entry (V : Type 0) : Type 0 where
  pub value : V
  pub stored_at : Time

pub record Cache (V : Type 0) : Type 0 where
  pub entries : Dict (Entry V)
  pub ttl : ℕ
  pub stale_for : ℕ

module _ {V : Type 0} where
  unfoldable pub new_cache : ℕ → ℕ → Cache V
  new_cache ttl stale_for = record { entries = []; ttl = ttl; stale_for = stale_for }

  -- A clock that shows less than `stored_at` makes the age negative, so the entry is young.
  young : Time → ℕ → Option (Entry V) → Option V
  young now max_age none = none
  young now max_age (some e) = if ltb max_age (now - e.stored_at) then none else some e.value

  -- `get`
  unfoldable pub get_aged : Cache V → String → ℕ → Time → Option V
  unfolding young
  get_aged c key max_age now = young now max_age (Dict.lookup key c.entries)

  -- `Get`
  unfoldable pub get : Cache V → String → Time → Option V
  unfolding get_aged
  get c key now = get_aged c key c.ttl now

  -- `GetStale`
  unfoldable pub get_stale : Cache V → String → Time → Option V
  unfolding get_aged
  get_stale c key now = get_aged c key (c.ttl + c.stale_for) now

  -- `Put`
  unfoldable pub put : Cache V → String → V → Time → Cache V
  put c key v now = record c {
    entries = Dict.insert key (record { value = v; stored_at = now }) c.entries;
  }
