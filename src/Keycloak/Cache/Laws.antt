-- ===== src/Keycloak/Cache/Laws.antt =====
-- What the cache answers is what was put last, while it is young enough.
use deploy_gateway.Base.{
  ℕ, ◌+◌, ◌-◌, ◌≤◌, String, ◌==◌, ◌≡◌, Option, none, some, arith, ltb, if◌then◌else◌,
}
use deploy_gateway.Base.Dict
use deploy_gateway.Base.Dict.{lookup-insert}
use deploy_gateway.Store.{Time}
use deploy_gateway.Keycloak.Cache.{Entry, Cache, young, get_aged, get, get_stale, put}

module _ {V : Type 0} where
  -- A fresh answer is the value that was put last under this key, for as long as it is not older than
  -- the time to live, and then nothing; the grace period adds to that for `get_stale`. Other keys keep
  -- their answers.
  pub get-put :
      (c : Cache V) (k j : String) (v : V) (put_at now : Time)
      → (get (put c k v put_at) j now
          ≡ (if k == j then (if ltb c.ttl (now - put_at) then none else some v) else get c j now))
        × (get_stale (put c k v put_at) j now ≡ (
            if k == j
            then (if ltb (c.ttl + c.stale_for) (now - put_at) then none else some v)
            else get_stale c j now))
  unfolding get get_stale put get_aged young
  get-put c k j v put_at now = (rw lookup-insert (ground arith), rw lookup-insert (ground arith))

  -- What a cache answers was stored under the key, not longer ago than the age that is asked for.
  pub record Hit (c : Cache V) (key : String) (max_age : ℕ) (now : Time) (v : V) : Type 0 where
    pub entry : Entry V
    pub found : Dict.lookup key c.entries ≡ some entry
    pub value : entry.value ≡ v
    pub age : now ≤ entry.stored_at + max_age

  young-Hit :
      (c : Cache V) (key : String) (max_age : ℕ) (now : Time) (v : V) (o : Option (Entry V))
      → Dict.lookup key c.entries ≡ o
      → young now max_age o ≡ some v
      → Hit c key max_age now v
  unfolding young
  young-Hit c key max_age now v none e h = cc
  young-Hit c key max_age now v (some x) e h = record {
    entry = x;
    found = e;
    value = ground arith;
    age = ground arith;
  }

  pub get_aged-Hit :
      (c : Cache V) (key : String) (max_age : ℕ) (now : Time) {v : V}
      → get_aged c key max_age now ≡ some v
      → Hit c key max_age now v
  unfolding get_aged
  get_aged-Hit c key max_age now {v} h =
      young-Hit c key max_age now v (Dict.lookup key c.entries) (λ i. Dict.lookup key c.entries) h
