-- ===== src/Messaging/Contracts.antt =====
-- src/core/messaging/messaging.contracts.ts: the events, and who listens to them.
use nest_fastify_boilerplate.Prelude.{String, Option, List, [], ◌∷◌}

-- `EventRoutingKey`
pub data EventRoutingKey : Type 0 where
  user_registered notification_created : EventRoutingKey

abbrev pub routing_key_text : EventRoutingKey → String
routing_key_text user_registered = "user.registered"
routing_key_text notification_created = "notification.created"

pub record UserRegistered : Type 0 where
  pub user_id : String
  pub email : String
  pub name : Option String

pub record NotificationCreated : Type 0 where
  pub user_id : String
  pub message : String

-- `EventPayload<K>`
abbrev pub EventPayload : EventRoutingKey → Type 0
EventPayload user_registered = UserRegistered
EventPayload notification_created = NotificationCreated

pub record Subscription : Type 0 where
  pub subscriber : String
  pub event : String

abbrev pub subscriptions : List Subscription
subscriptions =
    record { subscriber = "mail"; event = "user.registered" }
    ∷ record { subscriber = "notifications"; event = "notification.created" }
    ∷ []
