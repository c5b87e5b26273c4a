-- ===== src/Messaging/Topology.antt =====
-- src/core/messaging/topology.ts: the exchanges and queues that are declared at the broker.
pub mod Bound
use nest_fastify_boilerplate.Prelude.{
  ℕ, zero, suc, ◌+◌, String, Bool, true, false, Option, none, some, List, [], ◌∷◌, ◌++◌,
}
use nest_fastify_boilerplate.Messaging.Constants.{
  Exchanges, work_queue_name, retry_queue_name, retry_routing_key, dlq_name, unrouted_queue_name,
}
use nest_fastify_boilerplate.Messaging.Contracts.{Subscription}

pub data ExchangeType : Type 0 where
  topic fanout : ExchangeType

pub record ExchangeConfig : Type 0 where
  pub name : String
  pub kind : ExchangeType
  pub durable : Bool
  pub alternate_exchange : Option String

-- The arguments `x-queue-type: quorum`, `x-message-ttl`, `x-dead-letter-exchange`,
-- `x-dead-letter-routing-key` and `x-delivery-limit`.
pub record QueueArguments : Type 0 where
  pub quorum : Bool
  pub message_ttl : Option ℕ
  pub dead_letter_exchange : Option String
  pub dead_letter_routing_key : Option String
  pub delivery_limit : Option ℕ

pub record QueueConfig : Type 0 where
  pub name : String
  pub exchange : String
  pub routing_key : String
  pub create_queue_if_not_exists : Bool
  pub durable : Bool
  pub arguments : QueueArguments

unfoldable pub build_exchanges : Exchanges → List ExchangeConfig
build_exchanges ex =
    record { name = ex.events; kind = topic; durable = true; alternate_exchange = some ex.unrouted }
    ∷ record { name = ex.retry; kind = topic; durable = true; alternate_exchange = none }
    ∷ record { name = ex.dlx; kind = topic; durable = true; alternate_exchange = none }
    ∷ record { name = ex.unrouted; kind = fanout; durable = true; alternate_exchange = none }
    ∷ []

abbrev pub parking : QueueArguments
parking = record {
  quorum = true;
  message_ttl = none;
  dead_letter_exchange = none;
  dead_letter_routing_key = none;
  delivery_limit = none;
}

unfoldable pub unrouted_queue : String → Exchanges → QueueConfig
unrouted_queue base ex = record {
  name = unrouted_queue_name base;
  exchange = ex.unrouted;
  routing_key = "";
  create_queue_if_not_exists = true;
  durable = true;
  arguments = parking;
}

module _ (ex : Exchanges) (delivery_limit : ℕ) (sub : Subscription) where
  unfoldable pub work_queue : QueueConfig
  work_queue = record {
    name = work_queue_name sub.subscriber sub.event;
    exchange = ex.events;
    routing_key = sub.event;
    create_queue_if_not_exists = true;
    durable = true;
    arguments = record {
      quorum = true;
      message_ttl = none;
      dead_letter_exchange = some ex.dlx;
      dead_letter_routing_key = some sub.event;
      delivery_limit = some delivery_limit;
    };
  }

  unfoldable pub retry_queue : ℕ → ℕ → QueueConfig
  retry_queue ttl i = record {
    name = retry_queue_name sub.subscriber sub.event i;
    exchange = ex.retry;
    routing_key = retry_routing_key sub.subscriber sub.event i;
    create_queue_if_not_exists = true;
    durable = true;
    arguments = record {
      quorum = false;
      message_ttl = some ttl;
      dead_letter_exchange = some ex.events;
      dead_letter_routing_key = some sub.event;
      delivery_limit = none;
    };
  }

  -- `retryDelaysMs.forEach((ttl, i) => …)`
  unfoldable pub retry_queues : ℕ → List ℕ → List QueueConfig
  unfolding retry_queue
  retry_queues i [] = []
  retry_queues i (ttl ∷ delays) = retry_queue ttl i ∷ retry_queues (i + 1) delays

  unfoldable pub dlq : QueueConfig
  dlq = record {
    name = dlq_name sub.subscriber sub.event;
    exchange = ex.dlx;
    routing_key = sub.event;
    create_queue_if_not_exists = true;
    durable = true;
    arguments = parking;
  }

-- The loop over the subscriptions.
unfoldable pub subscription_queues : Exchanges → ℕ → List ℕ → List Subscription → List QueueConfig
unfolding work_queue retry_queues dlq
subscription_queues ex limit delays [] = []
subscription_queues ex limit delays (sub ∷ subs) =
    work_queue ex limit sub
    ∷ (retry_queues ex limit sub 0 delays
        ++ (dlq ex limit sub ∷ subscription_queues ex limit delays subs))

unfoldable pub build_queues : String → Exchanges → List Subscription → List ℕ → ℕ → List QueueConfig
unfolding unrouted_queue subscription_queues
build_queues base ex subs delays limit =
    unrouted_queue base ex ∷ subscription_queues ex limit delays subs
