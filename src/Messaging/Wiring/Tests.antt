-- ===== src/Messaging/Wiring/Tests.antt =====
-- A message that is delivered twice, on the Redis of Redis/Memory.antt.
use nest_fastify_boilerplate.Prelude.{
  ℕ, ◌+◌, String, ◌≡◌, refl, true, Option, none, some, [], ◌∷◌, ◌<>◌, show, arith,
}
use nest_fastify_boilerplate.Effects.{Outcome, Exec, returned}
use nest_fastify_boilerplate.Redis.Memory.{memory, no_keys}
use nest_fastify_boilerplate.Redis.Scripts.{acquire_lock, release_lock}
use nest_fastify_boilerplate.Redis.Cache
use nest_fastify_boilerplate.Redis.Cache.{ttl_of}
use nest_fastify_boilerplate.Redis.Lock
use nest_fastify_boilerplate.Redis.Lock.{World, answered, try_once}
use nest_fastify_boilerplate.Redis.Lock.Arguments.{validate_lock_args}
use nest_fastify_boilerplate.Messaging.Message.{Message, Publication}
use nest_fastify_boilerplate.Messaging.Consume.{
  Config, Params, ack, Trace, asked_marker, done_key, present, process, lock_and_process, handle,
}
use nest_fastify_boilerplate.Messaging.Consume.Accounts.{fresh, did_mark}
use nest_fastify_boilerplate.Messaging.Wiring.{redis_services}
use nest_fastify_boilerplate.Messaging.Wiring.Redelivery.{redelivery_skips}

abbrev Server : Type 0
Server = World memory.State

abbrev token_of : ℕ → String
token_of n = "token" <> show n

abbrev encode : ℕ → String
encode n = "1"

abbrev decode : String → Outcome ℕ
decode s = returned 1

abbrev send : Publication ℕ → Exec Server Unit
send p w = (returned tt, w)

abbrev parse : String → ℕ → Outcome ℕ
parse key p = returned p

abbrev instant : Server → String
instant w = "now"

abbrev number_of : String → Option ℕ
number_of s = none

abbrev config : Config
config = record { exchange = "app"; max_retries = 3; idempotency_ttl = 60 }

abbrev mail : Params
mail = record { subscriber = "mail"; routing_key = "user.registered" }

abbrev msg : Message
msg = record { message_id = some "m1"; headers = none }

abbrev work : ℕ → Exec Server Unit
work p w = (returned tt, record w { now = w.now + 20 })

abbrev start : Server
start = record { redis = no_keys; now = 1000; drawn = 0; calls = 0; link = λ n. answered }

abbrev after_first : Trace Server ℕ
after_first =
    (handle (redis_services memory token_of encode decode send parse instant number_of) config mail
      5 msg work (fresh start)).1

is_present : present msg.message_id ≡ some "m1"
unfolding present
is_present = refl

first_marks : did_mark after_first.calls ≡ true
unfolding handle present lock_and_process process Lock.acquire try_once acquire_lock
    validate_lock_args Lock.release release_lock Cache.get Cache.set ttl_of show
first_marks = refl

first_ends : after_first.env.now ≡ 1020
unfolding handle present lock_and_process process Lock.acquire try_once acquire_lock
    validate_lock_args Lock.release release_lock Cache.get Cache.set ttl_of show
first_ends = refl

redelivery_skips_example :
    handle
      (redis_services memory token_of encode decode send parse instant number_of)
      config
      mail
      5
      msg
      work
      (fresh (record after_first.env { now = 2000 }))
    ≡ (
      returned ack,
      record {
        env = record after_first.env { now = 2000 };
        calls = (asked_marker (done_key "m1"), true) ∷ [];
      },
    )
redelivery_skips_example =
    redelivery_skips memory token_of encode decode send parse instant number_of config mail mail 5 5
      msg msg work work start "m1" 2000 is_present is_present (omega arith) refl first_marks
      (omega (arith, first_ends))
