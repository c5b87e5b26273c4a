-- ===== src/Config/Validation/Retries.antt =====
-- The settings of src/core/config/env.schema.ts against the retries of src/core/messaging/consume.ts.
use mathlib.Core.List.{Memᴰ}
use nest_fastify_boilerplate.Prelude.{ℕ, ◌<◌, String, ◌≡◌, Option, List}
use nest_fastify_boilerplate.Effects.{Issue, Thrown, returned}
use nest_fastify_boilerplate.Messaging.Constants.{exchange_names}
use nest_fastify_boilerplate.Messaging.Contracts.{Subscription}
use nest_fastify_boilerplate.Messaging.Message.{Message}
use nest_fastify_boilerplate.Messaging.Topology.{build_queues}
use nest_fastify_boilerplate.Messaging.Topology.Bound.{Reaches}
use nest_fastify_boilerplate.Messaging.Consume.{Services, retry_publication}
use nest_fastify_boilerplate.Messaging.Routing.{publications_reach}
use nest_fastify_boilerplate.Config.Rules.{Rule, Zod}
use nest_fastify_boilerplate.Config.Schema.{Env}
use nest_fastify_boilerplate.Config.Validation.{max_retries_of, retry_delays_of, validate_env}
use nest_fastify_boilerplate.Config.Validation.Laws.{validate_env-returned, super_refine-IsCoherent}

-- With the settings of an environment that `validateEnv` lets through, for a subscription of the
-- topology: a message that is published for a retry, below the limit of retries, reaches a queue.
pub validated_retries_reach :
    (zod : Zod) (message_of : Rule → Option String → String) (prettify : List Issue → String)
    (raw : String → Option String) (env : Env) {S P L : Type 0} (services : Services S P L)
    (base : String) (idempotency_ttl : ℕ) (sub : Subscription) (subs : List Subscription)
    (limit : ℕ) (payload : P) (msg : Message) (attempt : ℕ) (err : Thrown)
    → validate_env zod message_of prettify raw ≡ returned env
    → Memᴰ sub subs
    → attempt < max_retries_of env
    → Reaches
        (build_queues base (exchange_names base) subs (retry_delays_of env) limit)
        (retry_publication services
          (record {
            exchange = base;
            max_retries = max_retries_of env;
            idempotency_ttl = idempotency_ttl;
          })
          (record { subscriber = sub.subscriber; routing_key = sub.event })
          payload
          msg
          attempt
          err).exchange
        (retry_publication services
          (record {
            exchange = base;
            max_retries = max_retries_of env;
            idempotency_ttl = idempotency_ttl;
          })
          (record { subscriber = sub.subscriber; routing_key = sub.event })
          payload
          msg
          attempt
          err).routing_key
validated_retries_reach zod message_of prettify raw env services base idempotency_ttl sub subs limit
      payload msg attempt err h listed below =
    let (_, _, refined) = validate_env-returned zod message_of prettify raw env h in
    let (_, enough, _, _) = (super_refine-IsCoherent env).0 refined in
    (publications_reach services
      (record {
        exchange = base;
        max_retries = max_retries_of env;
        idempotency_ttl = idempotency_ttl;
      })
      sub subs (retry_delays_of env) limit payload msg attempt err "" "" listed enough below).0
