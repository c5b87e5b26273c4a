-- ===== src/Messaging/Routing.antt =====
-- The publications of src/core/messaging/consume.ts against the queues of src/core/messaging/topology.ts.
use mathlib.Core.List.{Memᴰ}
use nest_fastify_boilerplate.Prelude.{
  ℕ, zero, suc, ◌<◌, ◌≤◌, String, ◌≡◌, refl, some, List, [], ◌∷◌, get_elem?, length, arith, ap, ◌∙◌,
}
use nest_fastify_boilerplate.Effects.{Thrown}
use nest_fastify_boilerplate.Messaging.Constants.{exchange_names, retry_routing_key}
use nest_fastify_boilerplate.Messaging.Contracts.{Subscription}
use nest_fastify_boilerplate.Messaging.Message.{Message}
use nest_fastify_boilerplate.Messaging.Topology.{build_queues}
use nest_fastify_boilerplate.Messaging.Topology.Bound.{Reaches, build_queues_retry, dlq_reached}
use nest_fastify_boilerplate.Messaging.Consume.{
  Services, Config, retry_publication, dlq_publication,
}

get_elem?_of_lt {ℓ} :
    {A : Type ℓ} (xs : List A) (i : ℕ) → i < length xs → (a : A) × (get_elem? xs i ≡ some a)
get_elem?_of_lt [] i h = absurd (omega arith)
get_elem?_of_lt (x ∷ xs) zero h = (x, refl)
get_elem?_of_lt (x ∷ xs) (suc i) h = get_elem?_of_lt xs i (omega arith)

-- With a delay for each retry, as the environment's schema demands, and for a subscription of the
-- topology: a message that is published for a retry, below the limit of retries, reaches a queue;
-- so does one that is published to the dead-letter exchange.
pub publications_reach :
    {S P L : Type 0} (services : Services S P L) (config : Config) (sub : Subscription)
    (subs : List Subscription) (delays : List ℕ) (limit : ℕ) (payload : P) (msg : Message)
    (attempt : ℕ) (err : Thrown) (reason failed_at : String)
    → Memᴰ sub subs
    → config.max_retries ≤ length delays
    → attempt < config.max_retries
    → Reaches
        (build_queues config.exchange (exchange_names config.exchange) subs delays limit)
        (retry_publication services config
          (record { subscriber = sub.subscriber; routing_key = sub.event })
          payload
          msg
          attempt
          err).exchange
        (retry_publication services config
          (record { subscriber = sub.subscriber; routing_key = sub.event })
          payload
          msg
          attempt
          err).routing_key
      × Reaches
          (build_queues config.exchange (exchange_names config.exchange) subs delays limit)
          (dlq_publication services config sub.event payload msg reason failed_at).exchange
          (dlq_publication services config sub.event payload msg reason failed_at).routing_key
unfolding retry_publication dlq_publication
publications_reach services config sub subs delays limit payload msg attempt err reason failed_at
      listed enough below =
    let (ttl, found) = get_elem?_of_lt delays attempt (omega arith) in
    let (q, mem, at_retry, key, _, _, _) =
      build_queues_retry config.exchange (exchange_names config.exchange) subs delays limit attempt
        listed found in
    (
      (q, mem, at_retry, key ∙ ap (retry_routing_key sub.subscriber sub.event) (omega arith)),
      dlq_reached (exchange_names config.exchange) limit delays config.exchange listed,
    )
