-- ===== src/Consumers/Tests.antt =====
-- The consumers with the environment of Config/Tests.antt, and the registration of a user.
use nest_fastify_boilerplate.Prelude.{ℕ, suc, ◌≡◌, refl, true, none, some, List, [], ◌∷◌, show}
use nest_fastify_boilerplate.Effects.{Outcome, Exec, returned, thrown, error, is_returned}
use nest_fastify_boilerplate.Config.Tests.{zod, message_of, prettify, raw, env, env_passes}
use nest_fastify_boilerplate.Messaging.Constants.{exchange_names}
use nest_fastify_boilerplate.Messaging.Contracts.{
  UserRegistered, NotificationCreated, subscriptions,
}
use nest_fastify_boilerplate.Messaging.Payloads.{
  Payload, registered, notified, Schemas, parse_contract,
}
use nest_fastify_boilerplate.Messaging.Message.{Publication}
use nest_fastify_boilerplate.Messaging.Topology.{build_queues}
use nest_fastify_boilerplate.Messaging.Topology.Bound.{Reaches}
use nest_fastify_boilerplate.Messaging.Consume.{Services, Config}
use nest_fastify_boilerplate.Messaging.Consume.Accounts.{fresh}
use nest_fastify_boilerplate.Messaging.Consume.Attempts.{redelivered}
use nest_fastify_boilerplate.Outbox.Rows.{Row, pending}
use nest_fastify_boilerplate.Outbox.Table.{Table, table}
use nest_fastify_boilerplate.Outbox.Repository.{enqueue}
use nest_fastify_boilerplate.Mail.{Job, with_job, mail_options, enqueue_mail}
use nest_fastify_boilerplate.Mail.Tests.{mails}
use nest_fastify_boilerplate.Auth.{Account, registered_user, registration}
use nest_fastify_boilerplate.Consumers.{
  user_registered_attachment, notifications_attachment, unrouted_attachment, user_registered_params,
  notifications_params, RabbitOptions, for_root, welcome_mail,
}
use nest_fastify_boilerplate.Consumers.Attached.{
  IsFed, PassesUnrouted, names_of, consumers_attached,
}
use nest_fastify_boilerplate.Consumers.Once.{deliver_again, mails_once}
use nest_fastify_boilerplate.Consumers.Registration.{publish_row, deliver, registration_mails}

consumers_attached_example :
    (options : RabbitOptions) × (for_root true env ≡ returned options)
    × IsFed options.queues user_registered_attachment
        (names_of raw).events
        user_registered_params.routing_key
    × IsFed options.queues notifications_attachment
        (names_of raw).events
        notifications_params.routing_key
    × IsFed options.queues (unrouted_attachment raw) (names_of raw).unrouted ""
    × PassesUnrouted options.exchanges (names_of raw).events (names_of raw).unrouted
consumers_attached_example = consumers_attached zod message_of prettify raw env true refl env_passes

-- A contract that takes each user.
abbrev user_schema : Payload → Outcome UserRegistered
user_schema (registered user) = returned user
user_schema _ = thrown (error "invalid")

abbrev notification_schema : Payload → Outcome NotificationCreated
notification_schema (notified n) = returned n
notification_schema _ = thrown (error "invalid")

abbrev schemas : Schemas
schemas = record {
  user_registered_schema = user_schema;
  notification_created_schema = notification_schema;
}

-- No message was handled yet, and every lock is free.
abbrev open_services : Services ℕ Payload Unit
open_services = record {
  cache_get = λ k s. (returned none, s);
  cache_set = λ k v ttl s. (returned tt, suc s);
  acquire = λ k ttl s. (returned (some tt), s);
  release = λ lock s. (returned true, s);
  publish = λ p s. (returned tt, s);
  parse = parse_contract schemas;
  instant = λ s. "2026-01-01T00:00:00.000Z";
  number_of = λ s. none;
}

abbrev config : Config
config = record { exchange = "app"; max_retries = 3; idempotency_ttl = 86_400 }

abbrev ada : Account
ada = record { id = "u1"; email = "ada@example.org"; name = some "Ada" }

abbrev no_rows : Table Payload
no_rows = record { rows = []; now = 10 }

-- The row that the hook stores.
abbrev stored : Row Payload
stored = record {
  id = "id0";
  message_id = "uuid0";
  routing_key = "user.registered";
  payload = registered (registered_user ada);
  request_id = none;
  status = pending;
  attempts = 0;
  available_at = 10;
  created_at = 10;
  published_at = none;
}

is_stored : (enqueue table (registration ada) no_rows).0 ≡ returned stored
unfolding enqueue show
is_stored = refl

mail_taken :
    is_returned (enqueue_mail mails (welcome_mail (registered_user ada)) (some "uuid0") []).0 ≡ true
unfolding enqueue_mail
mail_taken = refl

abbrev take_all : Publication Payload → Exec ℕ Unit
take_all p n = (returned tt, suc n)

registration_mails_example :
    (p : Publication Payload) × (publish_row schemas (λ n. "r") (λ n. n) take_all "app" stored 0
      ≡ take_all p 0)
    × Reaches
        (build_queues "app" (exchange_names "app") subscriptions (5000 ∷ []) 5)
        p.exchange
        p.routing_key
    × (p.message_id ≡ some "uuid0")
    × ((deliver mails schemas open_services config p.payload
          (redelivered p)
          (fresh (0, []))).1.env.1
        ≡ with_job "uuid0" "send"
            (welcome_mail (registered_user ada))
            (mail_options (some "uuid0"))
            [])
registration_mails_example =
    registration_mails table mails schemas open_services config (λ n. "r") (λ n. n) take_all
      (5000 ∷ []) 5 ada no_rows stored 0 tt 0 [] is_stored refl refl refl refl mail_taken

-- The queue takes each job.
taken :
    (jobs : List Job)
    → is_returned (enqueue_mail mails (welcome_mail (registered_user ada)) (some "uuid0") jobs).0
      ≡ true
unfolding enqueue_mail
taken jobs = refl

mails_once_example :
    deliver_again mails schemas open_services config
      (registered_user ada)
      "uuid0"
      ((0, none) ∷ (0, none) ∷ (7, some []) ∷ [])
      []
    ≡ with_job "uuid0" "send" (welcome_mail (registered_user ada)) (mail_options (some "uuid0")) []
mails_once_example =
    mails_once mails schemas open_services config (registered_user ada) "uuid0" tt 0 none
      ((0, none) ∷ (7, some []) ∷ []) [] refl refl refl refl taken
