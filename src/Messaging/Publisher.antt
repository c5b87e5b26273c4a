-- ===== src/Messaging/Publisher.antt =====
-- src/core/messaging/event-publisher.service.ts: an event is checked against its contract and published
-- to the events exchange.
use nest_fastify_boilerplate.Prelude.{ℕ, String, Option, none, some, [], ◌∷◌, or_else}
use nest_fastify_boilerplate.Effects.{Outcome, Exec, ◌>>=◌}
use nest_fastify_boilerplate.Messaging.Constants.{exchange_names, attempt_header, request_id_header}
use nest_fastify_boilerplate.Messaging.Message.{HeaderValue, Publication, number, text, undefined}

pub record PublishOptions : Type 0 where
  pub message_id : Option String
  pub request_id : Option String

abbrev optional_text : Option String → HeaderValue
optional_text none = undefined
optional_text (some s) = text s

-- `parse` is the contract's schema (zod), `random_uuid` and `clock` read the state, and `send` is
-- `AmqpConnection.publish`.
module _ {S P : Type 0} (parse : String → P → Outcome P) (random_uuid : S → String) (clock : S → ℕ)
    (send : Publication P → Exec S Unit) (exchange : String) where
  abbrev pub publication : String → P → PublishOptions → S → Publication P
  publication routing_key validated opts s = record {
    exchange = (exchange_names exchange).events;
    routing_key = routing_key;
    payload = validated;
    message_id = some (or_else opts.message_id (random_uuid s));
    timestamp = some (clock s);
    content_type = some "application/json";
    headers = (attempt_header, number 0) ∷ (request_id_header, optional_text opts.request_id) ∷ [];
  }

  abbrev validate : String → P → Exec S P
  validate routing_key payload s = (parse routing_key payload, s)

  unfoldable pub publish : String → P → PublishOptions → Exec S Unit
  publish routing_key payload opts = do
    validated ← validate routing_key payload
    λ s. send (publication routing_key validated opts s) s
