-- ===== src/Messaging/Wiring.antt =====
-- The consumer of src/core/messaging/consume.ts on the cache and the lock service of src/core/redis, as
-- src/core/messaging/messaging.module.ts puts them together.
pub mod Redelivery
pub mod Tests
use Prim.Native.String.{[]}
use nest_fastify_boilerplate.Prelude.{ℕ, String, Option, none, some, List, []}
use nest_fastify_boilerplate.Effects.{Outcome, Exec, pure, ◌>>=◌}
use nest_fastify_boilerplate.Redis.Port.{Redis}
use nest_fastify_boilerplate.Redis.Cache
use nest_fastify_boilerplate.Redis.Cache.{Clocked}
use nest_fastify_boilerplate.Redis.Lock
use nest_fastify_boilerplate.Redis.Lock.{World, Waited, Lock, Turn, ended, running}
use nest_fastify_boilerplate.Redis.Lock.Arguments.{whole}
use nest_fastify_boilerplate.Messaging.Message.{Publication}
use nest_fastify_boilerplate.Messaging.Consume.{Services}

module _ (R : Redis) (random_token : ℕ → String) {P : Type 0} (encode : ℕ → String)
    (decode : String → Outcome ℕ) (publish : Publication P → Exec (World R.State) Unit)
    (parse : String → P → Outcome P) (instant : World R.State → String)
    (number_of : String → Option ℕ) where
  abbrev on_cache : {A : Type 0} → Exec (Clocked R.State) A → Exec (World R.State) A
  on_cache m w =
      let (r, c) = m (record { redis = w.redis; now = w.now }) in
      (r, record w { redis = c.redis; now = c.now })

  abbrev no_turns : List (Turn R.State)
  no_turns = []

  abbrev lock_of : Waited (Option Lock) → Option Lock
  lock_of running = none
  lock_of (ended lock) = lock

  -- The consumer acquires without retries.
  abbrev pub redis_services : Services (World R.State) P Lock
  redis_services = record {
    cache_get = λ k. on_cache (Cache.get R encode decode none k);
    cache_set = λ k v ttl. on_cache (Cache.set R encode decode none k v (some ttl));
    acquire = λ key ttl. Lock.acquire R random_token no_turns key (whole ttl) none >>= λ waited.
        pure (lock_of waited);
    release = Lock.release R;
    publish = publish;
    parse = parse;
    instant = instant;
    number_of = number_of;
  }
