-- ===== src/Messaging/Wiring/Redelivery.antt =====
-- A message that was handled is skipped when it comes again.
use Prim.Native.Char.{Char, code}
use Prim.Native.String.{[], ◌∷◌}
use text.Mathlib.TextLemmas.{cons-append}
use nest_fastify_boilerplate.Prelude.{
  ℕ, ◌+◌, ◌*◌, ◌<◌, ◌<>◌, String, ◌≡◌, ◌≢◌, refl, sym, ap, subst, ◌∙◌, true, Option, some, [], ◌∷◌,
  arith, eq_iff, eq_refl,
}
use nest_fastify_boilerplate.Effects.{Outcome, Exec, returned}
use nest_fastify_boilerplate.Redis.Port.{Redis}
use nest_fastify_boilerplate.Redis.Scripts.Locking.{release_lock-entry}
use nest_fastify_boilerplate.Redis.Cache
use nest_fastify_boilerplate.Redis.Cache.{cache_key, ttl_of}
use nest_fastify_boilerplate.Redis.Lock
use nest_fastify_boilerplate.Redis.Lock.{World, Lock}
use nest_fastify_boilerplate.Redis.Lock.Keys.{lock_key}
use nest_fastify_boilerplate.Messaging.Message.{Message, Publication}
use nest_fastify_boilerplate.Messaging.Consume.{
  Services, Config, Params, ack, asked_marker, done_key, present, handle,
}
use nest_fastify_boilerplate.Messaging.Consume.Accounts.{fresh, did_mark}
use nest_fastify_boilerplate.Messaging.Consume.Locks.{marker_skips}
use nest_fastify_boilerplate.Messaging.Consume.Markers.{handle-did_mark}
use nest_fastify_boilerplate.Messaging.Wiring

abbrev letter_l : Char
letter_l = "l"

abbrev letter_c : Char
letter_c = "c"

abbrev first_code : String → ℕ
first_code [] = 0
first_code (c ∷ s) = code c

lock_key-ne-cache_key : (a b : String) → lock_key a ≢ cache_key b
lock_key-ne-cache_key a b h =
    let same : letter_l ∷ ("ock:" <> a) ≡ letter_c ∷ ("ache:" <> b) =
      sym (cons-append letter_l "ock:" a) ∙ h ∙ cons-append letter_c "ache:" b in
    differ (ap first_code same)
  where
    differ : code letter_l ≡ code letter_c → ⊥
    differ e = ground arith

module _ (R : Redis) (random_token : ℕ → String) {P : Type 0} (encode : ℕ → String)
    (decode : String → Outcome ℕ) (publish : Publication P → Exec (World R.State) Unit)
    (parse : String → P → Outcome P) (instant : World R.State → String)
    (number_of : String → Option ℕ) where
  abbrev redis_services : Services (World R.State) P Lock
  redis_services =
      Wiring.redis_services R random_token encode decode publish parse instant number_of

  abbrev later : ℕ → World R.State → World R.State
  later t w = record w { now = t }

  entry-release :
      (lock : Lock) (key : String) (w : World R.State)
      → R.entry (Lock.release R lock w).1.redis (cache_key key) ≡ R.entry w.redis (cache_key key)
  unfolding Lock.release
  entry-release lock key w = ground (
    arith,
    release_lock-entry R w.now (lock_key lock.key) lock.token w.redis (cache_key key),
    lock_key-ne-cache_key lock.key key,
    eq_iff (lock_key lock.key) (cache_key key),
  )

  now-release : (lock : Lock) (w : World R.State) → (Lock.release R lock w).1.now ≡ w.now
  unfolding Lock.release
  now-release lock w = ground arith

  module _ (id : String) (ttl : ℕ) (before : World R.State) where
    abbrev marked : World R.State
    marked = (redis_services.cache_set (done_key id) 1 ttl before).1

    entry-marked :
        0 < ttl
        → R.entry marked.redis (cache_key (done_key id))
          ≡ some (record { value = R.stored (encode 1); deadline = some (before.now + ttl * 1000) })
    unfolding Cache.set ttl_of
    entry-marked positive = ground (
      arith,
      eq_refl (cache_key (done_key id)),
      R.set_ex-entry before.now (cache_key (done_key id)) (encode 1) ttl before.redis
          (cache_key (done_key id)) positive,
    )

    now-marked : marked.now ≡ before.now
    unfolding Cache.set
    now-marked = refl

    cache_get-release :
        (lock : Lock) (t : ℕ)
        → 0 < ttl
        → decode (encode 1) ≡ returned 1
        → t < (Lock.release R lock marked).1.now + ttl * 1000
        → redis_services.cache_get (done_key id) (later t (Lock.release R lock marked).1)
          ≡ (returned (some 1), later t (Lock.release R lock marked).1)
    unfolding Cache.get
    cache_get-release lock t positive again in_time = ground (
      arith,
      again,
      R.shown-stored (encode 1),
      R.get_lem t (cache_key (done_key id)) (Lock.release R lock marked).1.redis,
      entry-release lock (done_key id) marked,
      now-release lock marked,
      now-marked,
      entry-marked positive,
    )

-- A message that was handled is not handled again while its marker lives: after a delivery in which
-- `handle` wrote the marker, on the cache and the locks of Redis, a later delivery with the same id is
-- acknowledged with one call, the question for the marker, whatever its subscriber, routing key,
-- payload and handler. Between the two only time passes; it is less than the time to live of the
-- marker, which is positive, and JSON gives the marker back.
pub redelivery_skips :
    (R : Redis) (random_token : ℕ → String) {P : Type 0} (encode : ℕ → String)
    (decode : String → Outcome ℕ) (publish : Publication P → Exec (World R.State) Unit)
    (parse : String → P → Outcome P) (instant : World R.State → String)
    (number_of : String → Option ℕ) (config : Config) (params again : Params) (raw raw' : P)
    (msg redelivery : Message) (fn fn' : P → Exec (World R.State) Unit) (w : World R.State)
    (id : String) (t : ℕ)
    → present msg.message_id ≡ some id
    → present redelivery.message_id ≡ some id
    → 0 < config.idempotency_ttl
    → decode (encode 1) ≡ returned 1
    → did_mark
        (handle
          (Wiring.redis_services R random_token encode decode publish parse instant number_of)
          config
          params
          raw
          msg
          fn
          (fresh w)).1.calls
      ≡ true
    → t
      < (handle
          (Wiring.redis_services R random_token encode decode publish parse instant number_of)
          config
          params
          raw
          msg
          fn
          (fresh w)).1.env.now
        + config.idempotency_ttl * 1000
    → handle
        (Wiring.redis_services R random_token encode decode publish parse instant number_of)
        config
        again
        raw'
        redelivery
        fn'
        (fresh
          (record (handle
            (Wiring.redis_services R random_token encode decode publish parse instant number_of)
            config
            params
            raw
            msg
            fn
            (fresh w)).1.env { now = t }))
      ≡ (
        returned ack,
        record {
          env =
              record (handle
                (Wiring.redis_services R random_token encode decode publish parse instant number_of)
                config
                params
                raw
                msg
                fn
                (fresh w)).1.env { now = t };
          calls = (asked_marker (done_key id), true) ∷ [];
        },
      )
redelivery_skips R random_token encode decode publish parse instant number_of config params again
      raw raw' msg redelivery fn fn' w id t known known' positive json marked_it in_time =
    let services =
      Wiring.redis_services R random_token encode decode publish parse instant number_of in
    let (lock, before, same) =
      handle-did_mark services config params raw msg fn id w known marked_it in
    let in_time' : t
        < (Lock.release R lock
            (services.cache_set (done_key id) 1 config.idempotency_ttl before).1).1.now
          + config.idempotency_ttl * 1000 =
      subst (λ (e : World R.State). t < e.now + config.idempotency_ttl * 1000) same in_time in
    marker_skips services config again raw' redelivery fn'
      (record (handle services config params raw msg fn (fresh w)).1.env { now = t })
      (record (handle services config params raw msg fn (fresh w)).1.env { now = t }) id 1 known'
      (subst
        (λ (e : World R.State).
          services.cache_get (done_key id) (record e { now = t })
          ≡ (returned (some 1), record e { now = t }))
        (sym same)
        (cache_get-release R random_token encode decode publish parse instant number_of id
          config.idempotency_ttl before lock t positive json in_time'))
