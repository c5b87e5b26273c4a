-- ===== src/Outbox/Repository.antt =====
-- src/core/outbox/outbox.repository.prisma.ts
use nest_fastify_boilerplate.Prelude.{
  ℕ, ◌+◌, String, Bool, true, false, Option, none, some, List, ◌&&◌, leb, or_else, if◌then◌else◌,
}
use nest_fastify_boilerplate.Effects.{Exec, returned, pure, ◌>>=◌, ◌>>◌}
use nest_fastify_boilerplate.Outbox.Rows.{Status, pending, published, failed, Row, Database}

pub record EnqueueData (P : Type 0) : Type 0 where
  pub routing_key : String
  pub payload : P
  pub message_id : Option String
  pub request_id : Option String

abbrev pub is_pending : Status → Bool
is_pending pending = true
is_pending _ = false

module _ {P : Type 0} where
  -- `"status" = 'PENDING' AND "availableAt" <= now()`
  unfoldable pub is_due : ℕ → Row P → Bool
  is_due now r = is_pending r.status && leb r.available_at now

  abbrev pub as_published : ℕ → Row P → Row P
  as_published now r = record r { status = published; published_at = some now }

  abbrev pub as_retried : ℕ → Row P → Row P
  as_retried available_at r = record r { attempts = r.attempts + 1; available_at = available_at }

  abbrev pub as_failed : Row P → Row P
  as_failed r = record r { status = failed }

module _ {P : Type 0} (D : Database P) where
  open D use {State, now, new_id, random_uuid, create, update, query}

  -- The columns that the call leaves out have the defaults of the schema.
  unfoldable pub enqueue : EnqueueData P → Exec State (Row P)
  enqueue e s =
      create
        (record {
          id = new_id s;
          message_id = or_else e.message_id (random_uuid s);
          routing_key = e.routing_key;
          payload = e.payload;
          request_id = e.request_id;
          status = pending;
          attempts = 0;
          available_at = now s;
          created_at = now s;
          published_at = none;
        })
        s

  unfoldable pub claim_pending : ℕ → Exec State (List (Row P))
  unfolding is_due
  claim_pending limit s = let (rows, s') = query (is_due (now s)) limit s in (returned rows, s')

  unfoldable pub mark_published : String → Exec State Unit
  mark_published id = λ s. (update id (as_published (now s)) >> pure tt) s

  unfoldable pub mark_failed : String → ℕ → ℕ → Exec State Unit
  mark_failed id retry_delay_ms max_attempts = λ s.
      (update id (as_retried (now s + retry_delay_ms)) >>= λ row.
      if leb max_attempts row.attempts then (update id as_failed >> pure tt) else pure tt)
        s
