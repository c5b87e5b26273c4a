-- ===== src/Consumers/Attached.antt =====
-- The queues that the consumers attach to, against those that src/core/messaging/messaging.module.ts
-- declares. The consumers write the names of their queues themselves, and one reads the environment
-- itself.
use mathlib.Core.List.{Memᴰ}
use nest_fastify_boilerplate.Prelude.{
  ℕ, String, ◌≡◌, refl, true, Bool, false, Option, some, List, or_else, get_elem?-Memᴰ, arith,
}
use nest_fastify_boilerplate.Effects.{Issue, returned}
use nest_fastify_boilerplate.Config.Rules.{Rule, Zod, number}
use nest_fastify_boilerplate.Config.Schema.{Env, fields}
use nest_fastify_boilerplate.Config.Validation.{validate_env, text_at, number_at, numbers_at}
use nest_fastify_boilerplate.Config.Validation.Settings.{
  listed, text_with_default, required_url, integer_with_default, required_delays,
}
use nest_fastify_boilerplate.Messaging.Constants.{
  Exchanges, exchange_names, work_queue_name, unrouted_queue_name,
}
use nest_fastify_boilerplate.Messaging.Topology.{
  ExchangeConfig, QueueConfig, work_queue, build_queues, build_exchanges, unrouted_queue,
}
use nest_fastify_boilerplate.Messaging.Contracts.{subscriptions}
use nest_fastify_boilerplate.Consumers.{
  Attachment, user_registered_attachment, notifications_attachment, unrouted_attachment,
  user_registered_params, notifications_params, RabbitOptions, for_root,
}
use nest_fastify_boilerplate.Messaging.Topology.Bound.{work_queue_declared}

-- The consumer's queue is among those declared, bound to the exchange under that key.
abbrev pub IsFed : List QueueConfig → Attachment → String → String → Type 0
IsFed queues a exchange key =
    (q : QueueConfig) × Memᴰ q queues
    × (q.name ≡ a.queue)
    × (q.exchange ≡ exchange)
    × (q.routing_key ≡ key)

-- Events that fit no queue go to that exchange.
abbrev pub PassesUnrouted : List ExchangeConfig → String → String → Type 0
PassesUnrouted exchanges name other =
    (x : ExchangeConfig) × Memᴰ x exchanges × (x.name ≡ name) × (x.alternate_exchange ≡ some other)

module _ (delays : List ℕ) (limit : ℕ) (base : String) where
  abbrev ex : Exchanges
  ex = exchange_names base

  abbrev queues : List QueueConfig
  queues = build_queues base ex subscriptions delays limit

  fed :
      IsFed queues user_registered_attachment ex.events user_registered_params.routing_key
      × IsFed queues notifications_attachment ex.events notifications_params.routing_key
      × IsFed queues (unrouted_attachment (λ k. some base)) ex.unrouted ""
  unfolding work_queue work_queue_name unrouted_queue unrouted_queue_name build_queues
  fed = (
    (
      _,
      work_queue_declared ex limit delays base (get_elem?-Memᴰ subscriptions 0 refl),
      refl,
      refl,
      refl,
    ),
    (
      _,
      work_queue_declared ex limit delays base (get_elem?-Memᴰ subscriptions 1 refl),
      refl,
      refl,
      refl,
    ),
    (unrouted_queue base ex, Memᴰ.head refl, refl, refl, refl),
  )

  passes_unrouted : PassesUnrouted (build_exchanges ex) ex.events ex.unrouted
  unfolding build_exchanges
  passes_unrouted = (_, Memᴰ.head refl, refl, refl)

configured :
    (consumer : Bool) (env : Env) {uri base : String} {delays : List ℕ} {limit prefetch : ℕ}
    → text_at "RABBITMQ_URL" env ≡ some uri
    → text_at "RABBITMQ_EXCHANGE" env ≡ some base
    → numbers_at "RABBITMQ_RETRY_DELAYS_MS" env ≡ some delays
    → number_at "RABBITMQ_QUORUM_DELIVERY_LIMIT" env ≡ some limit
    → number_at "RABBITMQ_PREFETCH" env ≡ some prefetch
    → for_root consumer env
      ≡ returned (record {
        uri = uri;
        exchanges = build_exchanges (exchange_names base);
        queues = build_queues base (exchange_names base) subscriptions delays limit;
        prefetch_count = prefetch;
        wait = false;
        persistent = true;
        register_handlers = consumer;
      })
unfolding for_root
configured consumer env a b c d e = ground (arith, a, b, c, d, e)

-- The exchanges by the environment itself.
abbrev pub names_of : (String → Option String) → Exchanges
names_of raw = exchange_names (or_else (raw "RABBITMQ_EXCHANGE") "app")

-- With an environment that `validateEnv` lets through, the module can be configured, and each queue
-- that a consumer attaches to without creating it is declared: those of the mail and the notification
-- service are bound to the events exchange under the event that they handle, and that of the unrouted
-- messages to the exchange to which the events exchange passes what fits no queue.
pub consumers_attached :
    (zod : Zod) (message_of : Rule → Option String → String) (prettify : List Issue → String)
    (raw : String → Option String) (env : Env) (consumer : Bool)
    → zod.is_url "http://localhost:3000" ≡ true
    → validate_env zod message_of prettify raw ≡ returned env
    → (options : RabbitOptions) × (for_root consumer env ≡ returned options)
      × IsFed options.queues user_registered_attachment
          (names_of raw).events
          user_registered_params.routing_key
      × IsFed options.queues notifications_attachment
          (names_of raw).events
          notifications_params.routing_key
      × IsFed options.queues (unrouted_attachment raw) (names_of raw).unrouted ""
      × PassesUnrouted options.exchanges (names_of raw).events (names_of raw).unrouted
unfolding fields
consumers_attached zod message_of prettify raw env consumer good passed =
    let (uri, at_uri) =
      required_url zod message_of prettify raw env passed good "RABBITMQ_URL" (listed 15 refl) in
    let at_base =
      text_with_default zod message_of prettify raw env passed "RABBITMQ_EXCHANGE" "app"
        (listed 16 refl) in
    let (delays, at_delays) =
      required_delays zod message_of prettify raw env passed good "RABBITMQ_RETRY_DELAYS_MS"
        "5000,30000,300000" (listed 19 refl) in
    let (limit, at_limit) =
      integer_with_default zod message_of prettify raw env passed good
        "RABBITMQ_QUORUM_DELIVERY_LIMIT" 1 (number 5) (listed 20 refl) in
    let (prefetch, at_prefetch) =
      integer_with_default zod message_of prettify raw env passed good "RABBITMQ_PREFETCH" 1
        (number 10) (listed 17 refl) in
    let (users, notifications, rest) = fed delays limit (or_else (raw "RABBITMQ_EXCHANGE") "app") in
    (
      _,
      configured consumer env at_uri at_base at_delays at_limit at_prefetch,
      users,
      notifications,
      rest,
      passes_unrouted delays limit (or_else (raw "RABBITMQ_EXCHANGE") "app"),
    )
