-- ===== src/Redis/Cache/Hits.antt =====
-- What src/core/redis/services/cache.service.ts gives back.
use nest_fastify_boilerplate.Prelude.{
  ℕ, ◌+◌, ◌*◌, ◌<◌, String, ◌≡◌, Option, none, some, ltb, if◌then◌else◌, arith, eq_refl,
}
use nest_fastify_boilerplate.Effects.{Outcome, Exec, returned}
use nest_fastify_boilerplate.Redis.Port.{Redis}
use nest_fastify_boilerplate.Redis.Cache.{Clocked, cache_key, ttl_of, get, set, get_or_set}

-- The same server at another time.
abbrev pub at : {S : Type 0} → ℕ → Clocked S → Clocked S
at t w = record w { now = t }

-- The time to live in seconds: the caller's, else that of the setting, else a minute.
abbrev pub lifetime : Option ℕ → Option ℕ → ℕ
lifetime (some seconds) default_ttl = seconds
lifetime none (some seconds) = seconds
lifetime none none = 60

-- What is set can be got until its time to live is over, and is gone from then on. The time to live is
-- the caller's number of seconds; without one it is the default of the settings, and without that 60
-- seconds. It must be positive, and JSON must give the value back.
pub get-set :
    (R : Redis) {T : Type 0} (encode : T → String) (decode : String → Outcome T)
    (default_ttl : Option ℕ) (key : String) (value : T) (ttl : Option ℕ) (w : Clocked R.State)
    (t : ℕ)
    → 0 < lifetime ttl default_ttl
    → decode (encode value) ≡ returned value
    → (get R encode decode default_ttl key
        (at t (set R encode decode default_ttl key value ttl w).1)).0
      ≡ returned (if ltb t (w.now + lifetime ttl default_ttl * 1000) then some value else none)
unfolding get set ttl_of
get-set R encode decode default_ttl key value ttl w t positive again =
    let seconds = ttl_of R encode decode default_ttl ttl in
    let same : seconds ≡ lifetime ttl default_ttl = ground arith in
    let positive' : 0 < seconds = rw same positive in
    ground (
      arith,
      again,
      same,
      eq_refl (cache_key key),
      R.shown-stored (encode value),
      R.set_ex-entry w.now (cache_key key) (encode value) seconds w.redis (cache_key key) positive',
      R.get_lem t (cache_key key) (R.set_ex w.now (cache_key key) (encode value) seconds w.redis),
    )

-- The factory runs once for each time to live: where the key was missing and the factory returned a
-- value, a later call in that time returns this value, whatever its own factory, and changes nothing.
pub get_or_set-get_or_set :
    (R : Redis) {T : Type 0} (encode : T → String) (decode : String → Outcome T)
    (default_ttl : Option ℕ) (key : String) (seconds later : ℕ)
    (factory other : Exec (Clocked R.State) T) (w made : Clocked R.State) (value : T) (t : ℕ)
    → 0 < seconds
    → decode (encode value) ≡ returned value
    → R.get w.now (cache_key key) w.redis ≡ none
    → factory w ≡ (returned value, made)
    → t < made.now + seconds * 1000
    → ((get_or_set R encode decode default_ttl key seconds factory w).0 ≡ returned value)
      × (get_or_set R encode decode default_ttl key later other
            (at t (get_or_set R encode decode default_ttl key seconds factory w).1)
          ≡ (returned value, at t (get_or_set R encode decode default_ttl key seconds factory w).1))
unfolding get_or_set
get_or_set-get_or_set R encode decode default_ttl key seconds later factory other w made value t
      positive again missing run fresh =
    ground (
      arith,
      again,
      missing,
      run,
      eq_refl (cache_key key),
      R.shown-stored (encode value),
      R.set_ex-entry made.now (cache_key key) (encode value) seconds made.redis (cache_key key)
          positive,
      R.get_lem t (cache_key key)
          (R.set_ex made.now (cache_key key) (encode value) seconds made.redis),
    )
