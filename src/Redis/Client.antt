-- ===== src/Redis/Client.antt =====
-- src/core/redis/redis.provider.ts and src/core/redis/redis.module.ts: the options of the connections, and
-- the start and the end of the module. src/core/queue/queue.module.ts gives BullMQ the basic options.
use nest_fastify_boilerplate.Prelude.{
  ℕ, ◌*◌, ◌≤◌, ◌≡◌, min, String, Bool, true, Option, none, some, or_else, arith,
}
use nest_fastify_boilerplate.Effects.{Outcome, Exec, returned, thrown, error, ◌>>◌}
use nest_fastify_boilerplate.Config.Schema.{Env}
use nest_fastify_boilerplate.Config.Validation.{text_at, number_at}
use nest_fastify_boilerplate.Redis.Decorator.{
  ServiceRef, set_lock_service_ref, clear_lock_service_ref,
}

pub record BaseOptions : Type 0 where
  pub host : String
  pub port : ℕ
  pub password : Option String
  pub db : ℕ

-- `max_retries_per_request` is `none` where it is left to ioredis, and `some none` where it is null.
pub record RedisOptions : Type 0 where
  pub base : BaseOptions
  pub key_prefix : String
  pub lazy_connect : Bool
  pub retry_strategy : ℕ → ℕ
  pub max_retries_per_request : Option (Option ℕ)

-- Milliseconds before the reconnection number `times`, which counts from 1.
unfoldable pub retry_strategy : ℕ → ℕ
retry_strategy times = min (times * 200) 2000

module _ (env : Env) where
  abbrev base_of : Option String → Option ℕ → Outcome BaseOptions
  base_of (some host) (some port) = returned (record {
    host = host;
    port = port;
    password = text_at "REDIS_PASSWORD" env;
    db = or_else (number_at "REDIS_DB" env) 0;
  })
  base_of _ _ = thrown (error "Configuration key does not exist")

  -- `buildRedisBaseOptions`
  unfoldable pub build_redis_base_options : Outcome BaseOptions
  build_redis_base_options = base_of (text_at "REDIS_HOST" env) (number_at "REDIS_PORT" env)

  abbrev with_base : Option (Option ℕ) → Outcome BaseOptions → Outcome RedisOptions
  with_base retries (thrown e) = thrown e
  with_base retries (returned base) = returned (record {
    base = base;
    key_prefix = or_else (text_at "REDIS_KEY_PREFIX" env) "app:";
    lazy_connect = true;
    retry_strategy = retry_strategy;
    max_retries_per_request = retries;
  })

  -- The options of `createRedisClient`.
  unfoldable pub client_options : Outcome RedisOptions
  unfolding build_redis_base_options
  client_options = with_base none build_redis_base_options

  -- The options of `createRedisSubscriber`.
  unfoldable pub subscriber_options : Outcome RedisOptions
  unfolding build_redis_base_options
  subscriber_options = with_base (some none) build_redis_base_options

-- `RedisModule` by its lock service. `quit` is that of a connection; `Promise.allSettled` waits for both
-- and rejects for none.
abbrev settled : {S A : Type 0} → Exec S A → Exec S Unit
settled m s = (returned tt, (m s).1)

abbrev pub on_module_init : ℕ → ServiceRef → ServiceRef
on_module_init service ref = set_lock_service_ref service ref

unfoldable pub on_module_destroy :
    {S : Type 0}
    → Exec S Unit
    → Exec S Unit
    → ℕ
    → ServiceRef × S
    → Outcome (Unit {0}) × (ServiceRef × S)
on_module_destroy quit_client quit_subscriber service (ref, s) =
    let (done, s') = (settled quit_client >> settled quit_subscriber) s in
    (done, (clear_lock_service_ref service ref, s'))

-- The subscriber is connected as the client is, but for its retries: it never gives up a command.
pub subscriber_options_lem :
    (env : Env) (c s : RedisOptions)
    → client_options env ≡ returned c
    → subscriber_options env ≡ returned s
    → s ≡ record c { max_retries_per_request = some none }
unfolding client_options subscriber_options
subscriber_options_lem env c s h k = ground (arith, h, k)

-- A connection that is lost is tried again after at most two seconds, and never sooner than the time
-- before.
pub retry_strategy_bounds :
    (m n : ℕ) → m ≤ n → (retry_strategy m ≤ retry_strategy n) × (retry_strategy n ≤ 2000)
unfolding retry_strategy
retry_strategy_bounds m n h = (omega (arith, h), omega arith)
