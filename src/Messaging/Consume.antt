-- ===== src/Messaging/Consume.antt =====
-- src/core/messaging/consume.ts: `MessageConsumer.handle` runs a handler on a delivered message once it
-- is validated, unless it was handled before, and decides between acknowledging the message, a retry,
-- the dead-letter exchange and a requeue.
pub mod Accounts
pub mod Locks
pub mod Attempts
pub mod Markers
use nest_fastify_boilerplate.Prelude.{
  ℕ, ◌+◌, ◌-◌, min, max, String, Bool, true, false, Option, none, some, List, [], ◌∷◌, ltb, is_some,
  or_else, ◌<>◌, ◌==◌, if◌then◌else◌,
}
use nest_fastify_boilerplate.Effects.{
  Thrown, Outcome, Exec, returned, thrown, error, zod_error, app_exception, non_error, is_returned,
  pure, throw, try_catch, finally, ◌>>=◌, ◌>>◌,
}
use nest_fastify_boilerplate.Messaging.Constants.{
  exchange_names, attempt_header, error_header, failed_at_header, retry_routing_key,
}
use nest_fastify_boilerplate.Messaging.Message.{
  HeaderValue, Headers, Message, Publication, number, text, undefined, header, with_header,
}

-- What the consumer calls: the cache and lock services by their ports, the broker, the schemas of the
-- contracts (zod), the clock, and `Number` of a text (`none` is NaN or infinity, which no number of
-- retries is above; negative numbers and fractions, which this code never writes, are left out). `L` is a
-- lock that was granted.
pub record Services (S P L : Type 0) : Type 0 where
  pub cache_get : String → Exec S (Option ℕ)
  pub cache_set : String → ℕ → ℕ → Exec S Unit
  pub acquire : String → ℕ → Exec S (Option L)
  pub release : L → Exec S Bool
  pub publish : Publication P → Exec S Unit
  pub parse : String → P → Outcome P
  pub instant : S → String
  pub number_of : String → Option ℕ

pub record Config : Type 0 where
  pub exchange : String
  pub max_retries : ℕ
  pub idempotency_ttl : ℕ

pub record Params : Type 0 where
  pub subscriber : String
  pub routing_key : String

-- The promise of `handle`, where it is fulfilled: undefined acknowledges the message, `Nack(true)`
-- puts it back into its queue.
pub data Reply : Type 0 where
  ack nack_requeue : Reply

-- The calls of the services and of the handler.
pub data Event (P : Type 0) : Type 0 where
  asked_marker : String → Event P
  set_marker : String → ℕ → Event P
  asked_lock : String → Event P
  released : Event P
  handled : P → Event P
  published : Publication P → Event P

-- The state that the services share, and the calls made so far, newest first, each with whether it
-- returned.
pub record Trace (S P : Type 0) : Type 0 where
  pub env : S
  pub calls : List (Event P × Bool)

abbrev pub call : {S P A : Type 0} → Event P → Exec S A → Exec (Trace S P) A
call e m t = let (r, s) = m t.env in (r, record { env = s; calls = (e, is_returned r) ∷ t.calls })

abbrev pub processing_lock_ttl_ms : ℕ
processing_lock_ttl_ms = 30_000

unfoldable pub err_msg : Thrown → String
err_msg (error m) = m
err_msg (zod_error m _) = m
err_msg (app_exception e) = e.message_key
err_msg (non_error shown) = shown

-- `!messageId`: undefined and the empty text are missing.
unfoldable pub present : Option String → Option String
present none = none
present (some s) = if s == "" then none else some s

abbrev pub done_key : String → String
done_key id = "messaging:done:" <> id

module _ {S P L : Type 0} (services : Services S P L) (config : Config) where
  -- `Number(headers?.[ATTEMPT] ?? 0)`
  abbrev number_in : Option HeaderValue → Option ℕ
  number_in none = some 0
  number_in (some undefined) = some 0
  number_in (some (number n)) = some n
  number_in (some (text s)) = services.number_of s

  unfoldable pub attempt_of : Message → Option ℕ
  unfolding header
  attempt_of msg = number_in (header attempt_header (or_else msg.headers []))

  abbrev send : Publication P → Exec (Trace S P) Reply
  send p =
      try_catch (call (published p) (services.publish p) >> pure ack) (λ pub_err. pure nack_requeue)

  unfoldable pub tier_of : ℕ → ℕ
  tier_of attempt = min attempt (max 0 (config.max_retries - 1))

  unfoldable pub retry_publication : Params → P → Message → ℕ → Thrown → Publication P
  unfolding tier_of
  retry_publication params payload msg attempt err = record {
    exchange = (exchange_names config.exchange).retry;
    routing_key = retry_routing_key params.subscriber params.routing_key (tier_of attempt);
    payload = payload;
    message_id = msg.message_id;
    timestamp = none;
    content_type = none;
    headers =
        with_header error_header (text (err_msg err))
          (with_header attempt_header (number (attempt + 1)) (or_else msg.headers []));
  }

  unfoldable pub to_retry_or_requeue : Params → P → Message → ℕ → Thrown → Exec (Trace S P) Reply
  to_retry_or_requeue params payload msg attempt err =
      send (retry_publication params payload msg attempt err)

  unfoldable pub dlq_publication : String → P → Message → String → String → Publication P
  dlq_publication routing_key payload msg reason failed_at = record {
    exchange = (exchange_names config.exchange).dlx;
    routing_key = routing_key;
    payload = payload;
    message_id = msg.message_id;
    timestamp = none;
    content_type = none;
    headers =
        with_header failed_at_header (text failed_at)
          (with_header error_header (text reason) (or_else msg.headers []));
  }

  unfoldable pub to_dlq_or_requeue : String → P → Message → String → Exec (Trace S P) Reply
  to_dlq_or_requeue routing_key payload msg reason t =
      send (dlq_publication routing_key payload msg reason (services.instant t.env)) t

  module _ (params : Params) (raw : P) (msg : Message) (fn : P → Exec S Unit) where
    abbrev retry_or_dlq : P → Thrown → Option ℕ → Exec (Trace S P) Reply
    retry_or_dlq payload err none = to_dlq_or_requeue params.routing_key payload msg (err_msg err)
    retry_or_dlq payload err (some attempt) =
        if ltb attempt config.max_retries
        then to_retry_or_requeue params payload msg attempt err
        else to_dlq_or_requeue params.routing_key payload msg (err_msg err)

    -- the `catch` of the handler
    unfoldable pub on_error : P → Thrown → Exec (Trace S P) Reply
    on_error payload err = retry_or_dlq payload err (attempt_of msg)

    -- the `try` of the handler
    unfoldable pub process : String → P → Exec (Trace S P) Reply
    process id payload =
        try_catch
          (call (handled payload) (fn payload)
            >> call (set_marker (done_key id) config.idempotency_ttl)
                (services.cache_set (done_key id) 1 config.idempotency_ttl)
            >> pure ack)
          (on_error payload)

    abbrev with_lock : String → P → Option L → Exec (Trace S P) Reply
    with_lock id payload none = pure nack_requeue
    with_lock id payload (some lock) =
        finally (process id payload) (call released (services.release lock))

    unfoldable pub lock_and_process : String → P → Exec (Trace S P) Reply
    lock_and_process id payload =
        call (asked_lock ("messaging:lock:" <> id))
          (services.acquire ("messaging:lock:" <> id) processing_lock_ttl_ms)
        >>= with_lock id payload

    abbrev when_parsed : String → Outcome P → Exec (Trace S P) Reply
    when_parsed id (returned payload) = lock_and_process id payload
    when_parsed id (thrown (zod_error m issues)) =
        to_dlq_or_requeue params.routing_key raw msg "validation"
    when_parsed id (thrown e) = throw e

    abbrev unless_done : String → Option ℕ → Exec (Trace S P) Reply
    unless_done id (some marker) = pure ack
    unless_done id none = when_parsed id (services.parse params.routing_key raw)

    abbrev when_identified : Option String → Exec (Trace S P) Reply
    when_identified none = to_dlq_or_requeue params.routing_key raw msg "missing-message-id"
    when_identified (some id) =
        call (asked_marker (done_key id)) (services.cache_get (done_key id)) >>= unless_done id

    unfoldable pub handle : Exec (Trace S P) Reply
    unfolding present
    handle = when_identified (present msg.message_id)
