-- ===== src/Consumers.antt =====
-- The consumers of the worker, src/modules/users/consumers, src/modules/notifications/consumers and
-- src/core/messaging/unrouted.consumer.ts, and what src/core/messaging/messaging.module.ts declares.
pub mod Attached
pub mod Notifications
pub mod Once
pub mod Registration
pub mod Tests
use nest_fastify_boilerplate.Prelude.{
  ℕ, String, ◌<>◌, Bool, true, false, Option, none, some, List, [], ◌∷◌, or_else,
}
use nest_fastify_boilerplate.Effects.{
  Outcome, Exec, returned, thrown, error, pure, throw, ◌>>=◌, ◌>>◌,
}
use nest_fastify_boilerplate.Config.Schema.{Env, lookup}
use nest_fastify_boilerplate.Config.Validation.{text_at, number_at, numbers_at}
use nest_fastify_boilerplate.Messaging.Constants.{exchange_names}
use nest_fastify_boilerplate.Messaging.Contracts.{
  UserRegistered, NotificationCreated, subscriptions,
}
use nest_fastify_boilerplate.Messaging.Payloads.{Payload, registered, notified, unread}
use nest_fastify_boilerplate.Messaging.Message.{Message}
use nest_fastify_boilerplate.Messaging.Topology.{
  ExchangeConfig, QueueConfig, build_exchanges, build_queues,
}
use nest_fastify_boilerplate.Messaging.Consume.{Services, Config, Params, Trace, Reply, handle}
use nest_fastify_boilerplate.Mail.{SendMailJob}

-- `@RabbitSubscribe({ queue, createQueueIfNotExists })`
pub record Attachment : Type 0 where
  pub queue : String
  pub create_queue_if_not_exists : Bool

abbrev pub attach : String → Attachment
attach queue = record { queue = queue; create_queue_if_not_exists = false }

abbrev pub user_registered_attachment : Attachment
user_registered_attachment = attach "mail.user.registered.q"

abbrev pub notifications_attachment : Attachment
notifications_attachment = attach "notifications.notification.created.q"

-- The decorator reads the variable itself.
abbrev pub unrouted_attachment : (String → Option String) → Attachment
unrouted_attachment env = attach (or_else (env "RABBITMQ_EXCHANGE") "app" <> ".unrouted.q")

abbrev pub user_registered_params : Params
user_registered_params = record { subscriber = "mail"; routing_key = "user.registered" }

abbrev pub notifications_params : Params
notifications_params = record { subscriber = "notifications"; routing_key = "notification.created" }

abbrev pub welcome_mail : UserRegistered → SendMailJob
welcome_mail user = record {
  to = user.email;
  subject = "Chào mừng!";
  body = "Xin chào " <> or_else user.name user.email <> ", tài khoản của bạn đã sẵn sàng.";
}

module _ {S L : Type 0} (services : Services S Payload L) (config : Config) where
  -- `enqueue` is `MailProducer.enqueue`. What is no user has no e-mail address; the contract of
  -- 'user.registered' lets no such payload through.
  abbrev send_welcome :
      (SendMailJob → Option String → Exec S String) → Option String → Payload → Exec S Unit
  send_welcome enqueue id (registered user) = enqueue (welcome_mail user) id >> pure tt
  send_welcome enqueue id (notified n) = throw (error "not a user")
  send_welcome enqueue id (unread json) = throw (error "not a user")

  -- `UserRegisteredConsumer.handle`
  unfoldable pub handle_user_registered :
      (SendMailJob → Option String → Exec S String)
      → Payload
      → Message
      → Exec (Trace S Payload) Reply
  handle_user_registered enqueue raw msg =
      handle services config user_registered_params raw msg (send_welcome enqueue msg.message_id)

  -- `NotificationsConsumer.handle`, whose handler writes a line to the log.
  unfoldable pub handle_notification : Payload → Message → Exec (Trace S Payload) Reply
  handle_notification raw msg =
      handle services config notifications_params raw msg (λ payload. pure tt)

-- The options of `MessagingModule.forRoot`. A setting without a value cannot be read
-- (`getOrThrow`); the schema gives each a value.
pub record RabbitOptions : Type 0 where
  pub uri : String
  pub exchanges : List ExchangeConfig
  pub queues : List QueueConfig
  pub prefetch_count : ℕ
  pub wait : Bool
  pub persistent : Bool
  pub register_handlers : Bool

module _ (consumer : Bool) (env : Env) where
  abbrev options_of :
      Option String → Option String → Option (List ℕ) → Option ℕ → Option ℕ → Outcome RabbitOptions
  options_of (some uri) (some base) (some delays) (some limit) (some prefetch) =
      let ex = exchange_names base in
      returned (record {
        uri = uri;
        exchanges = build_exchanges ex;
        queues = build_queues base ex subscriptions delays limit;
        prefetch_count = prefetch;
        wait = false;
        persistent = true;
        register_handlers = consumer;
      })
  options_of _ _ _ _ _ = thrown (error "Configuration key does not exist")

  unfoldable pub for_root : Outcome RabbitOptions
  unfolding lookup
  for_root =
      options_of (text_at "RABBITMQ_URL" env) (text_at "RABBITMQ_EXCHANGE" env)
        (numbers_at "RABBITMQ_RETRY_DELAYS_MS" env) (number_at "RABBITMQ_QUORUM_DELIVERY_LIMIT" env)
        (number_at "RABBITMQ_PREFETCH" env)
