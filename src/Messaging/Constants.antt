-- ===== src/Messaging/Constants.antt =====
-- src/core/messaging/messaging.constants.ts: the names of exchanges, queues and routing keys.
use nest_fastify_boilerplate.Prelude.{ℕ, String, ◌<>◌, show}

-- `MessagingHeaders`
abbrev pub attempt_header : String
attempt_header = "x-attempt"

abbrev pub error_header : String
error_header = "x-error"

abbrev pub failed_at_header : String
failed_at_header = "x-failed-at"

abbrev pub request_id_header : String
request_id_header = "x-request-id"

pub record Exchanges : Type 0 where
  pub events : String
  pub retry : String
  pub dlx : String
  pub unrouted : String

unfoldable pub exchange_names : String → Exchanges
exchange_names base = record {
  events = base <> ".events";
  retry = base <> ".retry";
  dlx = base <> ".dlx";
  unrouted = base <> ".unrouted";
}

unfoldable pub work_queue_name : String → String → String
work_queue_name subscriber event = subscriber <> "." <> event <> ".q"

unfoldable pub retry_queue_name : String → String → ℕ → String
unfolding show
retry_queue_name subscriber event tier = subscriber <> "." <> event <> ".retry." <> show tier

unfoldable pub retry_routing_key : String → String → ℕ → String
unfolding show
retry_routing_key subscriber event tier = subscriber <> "." <> event <> ".r" <> show tier

unfoldable pub dlq_name : String → String → String
dlq_name subscriber event = subscriber <> "." <> event <> ".dlq"

unfoldable pub unrouted_queue_name : String → String
unrouted_queue_name base = base <> ".unrouted.q"
