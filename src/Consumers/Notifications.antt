-- ===== src/Consumers/Notifications.antt =====
-- src/modules/notifications/controllers: the notification that a request publishes, as far as its
-- consumer.
use nest_fastify_boilerplate.Prelude.{
  ℕ, String, ◌<>◌, ◌≡◌, refl, true, false, none, some, List, ◌==◌, Bool, get_elem?-Memᴰ, arith,
}
use nest_fastify_boilerplate.Effects.{Exec, returned, is_returned, pure, ◌>>◌}
use nest_fastify_boilerplate.Messaging.Constants.{exchange_names}
use nest_fastify_boilerplate.Messaging.Contracts.{NotificationCreated, subscriptions}
use nest_fastify_boilerplate.Messaging.Payloads.{Payload, Schemas, notified, parse_contract}
use nest_fastify_boilerplate.Messaging.Message.{Message, Publication}
use nest_fastify_boilerplate.Messaging.Topology.{build_queues}
use nest_fastify_boilerplate.Messaging.Topology.Bound.{Reaches, work_queue_reached}
use nest_fastify_boilerplate.Messaging.Publisher.{publication, publish}
use nest_fastify_boilerplate.Messaging.Consume.{
  Services, Config, ack, handle, lock_and_process, process, done_key, present,
  processing_lock_ttl_ms,
}
use nest_fastify_boilerplate.Messaging.Consume.Accounts.{fresh}
use nest_fastify_boilerplate.Messaging.Consume.Attempts.{redelivered}
use nest_fastify_boilerplate.Consumers.{handle_notification}

-- The notification of the controller.
abbrev pub demo : NotificationCreated
demo = record { user_id = "demo"; message = "hello from http" }

pub record Published : Type 0 where
  pub published : Bool

-- `NotificationsController.publish`
unfoldable pub publish_notification :
    {S : Type 0}
    → Schemas
    → (S → String)
    → (S → ℕ)
    → (Publication Payload → Exec S Unit)
    → String
    → Exec S Published
publish_notification schemas random_uuid clock send base =
    publish (parse_contract schemas) random_uuid clock send base "notification.created"
      (notified demo) (record { message_id = none; request_id = none })
    >> pure (record { published = true })

-- What is published, under the random id of that moment.
abbrev pub demo_publication :
    {S : Type 0} → (S → String) → (S → ℕ) → String → S → Publication Payload
demo_publication random_uuid clock base s =
    publication (λ key raw. returned raw) random_uuid clock (λ p. pure tt) base
      "notification.created" (notified demo) (record { message_id = none; request_id = none }) s

-- Where the contract takes the notification and the broker takes the message: the answer is published.
published :
    {S : Type 0} (schemas : Schemas) (random_uuid : S → String) (clock : S → ℕ)
    (send : Publication Payload → Exec S Unit) (base : String) (s t : S)
    → schemas.notification_created_schema (notified demo) ≡ returned demo
    → send (demo_publication random_uuid clock base s) s ≡ (returned tt, t)
    → publish_notification schemas random_uuid clock send base s
      ≡ (returned (record { published = true }), t)
unfolding publish_notification publish parse_contract
published schemas random_uuid clock send base s t valid sent = ground (arith, valid, sent)

module _ {S L : Type 0} (services : Services S Payload L) (config : Config) where
  -- A notification that was not handled yet is acknowledged, where no service fails.
  handled :
      (n : NotificationCreated) (msg : Message) (id : String) (lock : L) (s : S)
      → msg.message_id ≡ some id
      → (id == "") ≡ false
      → services.parse "notification.created" (notified n) ≡ returned (notified n)
      → (services.cache_get (done_key id) s).0 ≡ returned none
      → (services.acquire
          ("messaging:lock:" <> id)
          processing_lock_ttl_ms
          (services.cache_get (done_key id) s).1).0
        ≡ returned (some lock)
      → ((t : S) → (services.cache_set (done_key id) 1 config.idempotency_ttl t).0 ≡ returned tt)
      → ((t : S) → is_returned (services.release lock t).0 ≡ true)
      → (handle_notification services config (notified n) msg (fresh s)).0 ≡ returned ack
  unfolding handle_notification handle present lock_and_process process
  handled n msg id lock s known named valid unmarked granted marks releases =
      let held : S =
        (services.acquire ("messaging:lock:" <> id) processing_lock_ttl_ms
          (services.cache_get (done_key id) s).1).1 in
      let done : S = (services.cache_set (done_key id) 1 config.idempotency_ttl held).1 in
      ground (arith, known, named, valid, unmarked, granted, marks held, releases done)

-- The notification of a request, as far as its consumer. Where the contract takes it and the broker
-- takes the message: the request is answered, and the message reaches a queue of the topology. At
-- its first delivery, with its lock granted and no service failing, the consumer acknowledges it.
pub notification_handled :
    {B S L : Type 0} (schemas : Schemas) (services : Services S Payload L) (config : Config)
    (random_uuid : B → String) (clock : B → ℕ) (send : Publication Payload → Exec B Unit)
    (delays : List ℕ) (limit : ℕ) (b c : B) (lock : L) (s : S)
    → schemas.notification_created_schema (notified demo) ≡ returned demo
    → services.parse "notification.created" (notified demo) ≡ returned (notified demo)
    → send (demo_publication random_uuid clock config.exchange b) b ≡ (returned tt, c)
    → (random_uuid b == "") ≡ false
    → (services.cache_get (done_key (random_uuid b)) s).0 ≡ returned none
    → (services.acquire
        ("messaging:lock:" <> random_uuid b)
        processing_lock_ttl_ms
        (services.cache_get (done_key (random_uuid b)) s).1).0
      ≡ returned (some lock)
    → ((t : S)
        → (services.cache_set (done_key (random_uuid b)) 1 config.idempotency_ttl t).0
          ≡ returned tt)
    → ((t : S) → is_returned (services.release lock t).0 ≡ true)
    → (publish_notification schemas random_uuid clock send config.exchange b
        ≡ (returned (record { published = true }), c))
      × Reaches
          (build_queues config.exchange (exchange_names config.exchange) subscriptions delays limit)
          (demo_publication random_uuid clock config.exchange b).exchange
          (demo_publication random_uuid clock config.exchange b).routing_key
      × ((handle_notification services config
            (demo_publication random_uuid clock config.exchange b).payload
            (redelivered (demo_publication random_uuid clock config.exchange b))
            (fresh s)).0
          ≡ returned ack)
notification_handled schemas services config random_uuid clock send delays limit b c lock s valid
      again sent named unmarked granted marks releases =
    (
      published schemas random_uuid clock send config.exchange b c valid sent,
      work_queue_reached (exchange_names config.exchange) limit delays config.exchange
          (get_elem?-Memᴰ subscriptions 1 refl),
      handled services config demo
          (redelivered (demo_publication random_uuid clock config.exchange b)) (random_uuid b) lock
          s refl named again unmarked granted marks releases,
    )
