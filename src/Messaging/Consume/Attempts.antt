-- ===== src/Messaging/Consume/Attempts.antt =====
-- The life of a message whose handler fails at each delivery.
use nest_fastify_boilerplate.Prelude.{ℕ, zero, suc, ◌+◌, ◌≡◌, some, ◌∷◌, ◌<>◌, if◌then◌else◌}
use nest_fastify_boilerplate.Effects.{Thrown, Outcome, Exec, returned, is_returned}
use nest_fastify_boilerplate.Messaging.Constants.{retry_routing_key, attempt_header, error_header}
use nest_fastify_boilerplate.Messaging.Message.{Message, Publication, number, text, header}
use nest_fastify_boilerplate.Messaging.Consume.{
  Services, Config, Params, Trace, retry_publication, err_msg, on_error, Reply, ack, nack_requeue,
  published,
}

-- The message as it comes back from a retry queue, which keeps its properties.
abbrev pub redelivered : {P : Type 0} → Publication P → Message
redelivered p = record { message_id = p.message_id; headers = some p.headers }

module _ {S P L : Type 0} (services : Services S P L) (config : Config) (params : Params)
    (payload : P) (err : Thrown) where
  -- The message after `n` rounds through the retry queues, each after a delivery that failed with
  -- `err`, from the attempt `a` on.
  unfoldable pub after_retries : ℕ → ℕ → Message → Message
  after_retries zero a msg = msg
  after_retries (suc n) a msg =
      after_retries n (suc a)
        (redelivered (retry_publication services config params payload msg a err))

module _ {S P L : Type 0} (services : Services S P L) (config : Config) (params : Params)
    (raw payload : P) (err : Thrown) (fn : P → Exec S Unit) (msg : Message) (t : Trace S P) where
  -- The message at its delivery number `n`, counted from 0.
  abbrev pub delivery : ℕ → Message
  delivery n = after_retries services config params payload err n 0 msg

  -- The only call is the publication of `p`; the message is acknowledged where the broker confirms it,
  -- and put back into its queue where it does not.
  abbrev pub IsAnsweredBy : Publication P → Outcome Reply × Trace S P → Type 0
  IsAnsweredBy p result =
      (result.1.calls ≡ (published p, is_returned (services.publish p t.env).0) ∷ t.calls)
      × (result.1.env ≡ (services.publish p t.env).1)
      × (result.0
          ≡ returned (if is_returned (services.publish p t.env).0 then ack else nack_requeue))

  -- A publication for the retry after attempt `n`.
  abbrev pub IsRetryOf : ℕ → Publication P → Type 0
  IsRetryOf n p =
      (p.exchange ≡ config.exchange <> ".retry")
      × (p.routing_key ≡ retry_routing_key params.subscriber params.routing_key n)
      × (p.payload ≡ payload)
      × (p.message_id ≡ msg.message_id)
      × (header attempt_header p.headers ≡ some (number (n + 1)))
      × (header error_header p.headers ≡ some (text (err_msg err)))

  -- A publication to the dead-letter exchange.
  abbrev pub IsDeadLetter : Publication P → Type 0
  IsDeadLetter p =
      (p.exchange ≡ config.exchange <> ".dlx")
      × (p.routing_key ≡ params.routing_key)
      × (p.payload ≡ payload)
      × (p.message_id ≡ msg.message_id)
      × (header error_header p.headers ≡ some (text (err_msg err)))

  abbrev failed_at : ℕ → Outcome Reply × Trace S P
  failed_at n = on_error services config params raw (delivery n) fn payload err t
