-- ===== src/Messaging/Delivery.antt =====
-- What src/core/messaging/event-publisher.service.ts publishes, as src/core/messaging/consume.ts meets it.
use mathlib.Core.List.{Memᴰ}
use nest_fastify_boilerplate.Prelude.{ℕ, String, ◌≡◌, refl, some, List, or_else, arith}
use nest_fastify_boilerplate.Effects.{Outcome, Exec, returned}
use nest_fastify_boilerplate.Messaging.Constants.{exchange_names}
use nest_fastify_boilerplate.Messaging.Contracts.{Subscription}
use nest_fastify_boilerplate.Messaging.Message.{Publication, header}
use nest_fastify_boilerplate.Messaging.Topology.{build_queues}
use nest_fastify_boilerplate.Messaging.Topology.Bound.{Reaches, work_queue_reached}
use nest_fastify_boilerplate.Messaging.Publisher.{PublishOptions, publication, publish}
use nest_fastify_boilerplate.Messaging.Consume.{Services, Config, attempt_of}
use nest_fastify_boilerplate.Messaging.Consume.Attempts.{redelivered}

-- What `publish` sends for a payload that its contract accepts: the broker's answer is `publish`'s own,
-- the message reaches the queue of each subscriber of its routing key, it carries the id that the
-- caller gave or a random one, and the consumer counts its first delivery as attempt 0.
pub publish_lem :
    {S T P L : Type 0} (parse : String → P → Outcome P) (random_uuid : S → String) (clock : S → ℕ)
    (send : Publication P → Exec S Unit) (base : String) (services : Services T P L)
    (config : Config) (subs : List Subscription) (delays : List ℕ) (limit : ℕ) (sub : Subscription)
    (payload valid : P) (opts : PublishOptions) (s : S)
    → Memᴰ sub subs
    → parse sub.event payload ≡ returned valid
    → (p : Publication P) × (publish parse random_uuid clock send base sub.event payload opts s
        ≡ send p s)
      × (p.payload ≡ valid)
      × Reaches (build_queues base (exchange_names base) subs delays limit) p.exchange p.routing_key
      × (p.message_id ≡ some (or_else opts.message_id (random_uuid s)))
      × (attempt_of services config (redelivered p) ≡ some 0)
unfolding publish attempt_of header
publish_lem parse random_uuid clock send base services config subs delays limit sub payload valid
      opts s listed ok =
    (
      publication parse random_uuid clock send base sub.event valid opts s,
      ground arith,
      refl,
      work_queue_reached (exchange_names base) limit delays base listed,
      refl,
      refl,
    )
