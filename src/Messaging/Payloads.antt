-- ===== src/Messaging/Payloads.antt =====
-- `EventContracts` of src/core/messaging/messaging.contracts.ts: which schema reads the payload of which
-- event. The schemas themselves are zod's.
use nest_fastify_boilerplate.Prelude.{String, ◌==◌, if◌then◌else◌}
use nest_fastify_boilerplate.Effects.{Outcome, returned, thrown, error}
use nest_fastify_boilerplate.Messaging.Contracts.{
  UserRegistered, NotificationCreated, user_registered, notification_created, routing_key_text,
}

-- A payload as a schema leaves it, or a JSON value that none has read.
pub data Payload : Type 0 where
  registered : UserRegistered → Payload
  notified : NotificationCreated → Payload
  unread : String → Payload

pub record Schemas : Type 0 where
  pub user_registered_schema : Payload → Outcome UserRegistered
  pub notification_created_schema : Payload → Outcome NotificationCreated

abbrev as_payload : {A : Type 0} → (A → Payload) → Outcome A → Outcome Payload
as_payload f (returned a) = returned (f a)
as_payload f (thrown e) = thrown e

-- `EventContracts[routingKey].parse(raw)`; of another key, `parse` is read from undefined.
unfoldable pub parse_contract : Schemas → String → Payload → Outcome Payload
parse_contract schemas key raw =
    if key == routing_key_text user_registered
    then as_payload registered (schemas.user_registered_schema raw)
    else if key == routing_key_text notification_created
    then as_payload notified (schemas.notification_created_schema raw)
    else thrown (error "Cannot read properties of undefined (reading 'parse')")
