-- ===== src/Redis/Cache.antt =====
-- src/core/redis/services/cache.service.ts: values under keys, with a time to live, as JSON texts.
pub mod Hits
pub mod Tests
use Prim.Native.String
use nest_fastify_boilerplate.Prelude.{ℕ, ◌<>◌, String, Option, none, some, or_else}
use nest_fastify_boilerplate.Effects.{Outcome, Exec, returned, thrown, pure, ◌>>=◌, ◌>>◌}
use nest_fastify_boilerplate.Redis.Port.{Redis, Value}

-- The server, and its clock.
pub record Clocked (S : Type 0) : Type 0 where
  pub redis : S
  pub now : ℕ

abbrev pub cache_key : String → String
cache_key key = "cache:" <> key

-- `encode` and `decode` are `JSON.stringify` and `JSON.parse`, `default_ttl` is the setting. A cached
-- null is a value of `T`.
module _ (R : Redis) {T : Type 0} (encode : T → String) (decode : String → Outcome T)
    (default_ttl : Option ℕ) where
  abbrev pub State : Type 0
  State = Clocked R.State

  unfoldable pub ttl_of : Option ℕ → ℕ
  ttl_of ttl = or_else ttl (or_else default_ttl 60)

  abbrev raw_get : String → State → Option Value
  raw_get key w = R.get w.now (cache_key key) w.redis

  abbrev raw_set : String → T → ℕ → Exec State Unit
  raw_set key value seconds w = (
    returned tt,
    record w { redis = R.set_ex w.now (cache_key key) (encode value) seconds w.redis },
  )

  abbrev decoded : Option Value → Outcome (Option T)
  decoded none = returned none
  decoded (some raw) = parsed (decode (R.shown raw))
    where
      parsed : Outcome T → Outcome (Option T)
      parsed (returned v) = returned (some v)
      parsed (thrown e) = thrown e

  unfoldable pub get : String → Exec State (Option T)
  get key w = (decoded (raw_get key w), w)

  unfoldable pub set : String → T → Option ℕ → Exec State Unit
  unfolding ttl_of
  set key value ttl = raw_set key value (ttl_of ttl)

  unfoldable pub del : String → Exec State Unit
  del key w = (returned tt, record w { redis = (R.del w.now (cache_key key) w.redis).1 })

  abbrev hit_or_run : String → ℕ → Exec State T → Option Value → Exec State T
  hit_or_run key seconds factory (some raw) = λ w. (decode (R.shown raw), w)
  hit_or_run key seconds factory none = do value ← factory; raw_set key value seconds; pure value

  unfoldable pub get_or_set : String → ℕ → Exec State T → Exec State T
  get_or_set key seconds factory w = hit_or_run key seconds factory (raw_get key w) w
