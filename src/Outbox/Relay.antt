-- ===== src/Outbox/Relay.antt =====
-- `drainOnce` of src/core/outbox/outbox-relay.service.ts: one batch of pending events is published and
-- marked, in a transaction.
pub mod Verdicts
pub mod Drain
pub mod Consistency
use nest_fastify_boilerplate.Prelude.{ℕ, ◌*◌, String, Option, List, [], ◌∷◌}
use nest_fastify_boilerplate.Effects.{
  Thrown, Outcome, Exec, returned, thrown, pure, try_catch, ◌>>=◌, ◌>>◌,
}
use nest_fastify_boilerplate.Outbox.Rows.{Row, Database}
use nest_fastify_boilerplate.Outbox.Repository.{claim_pending, mark_published, mark_failed}

pub record Config : Type 0 where
  pub poll_ms : ℕ
  pub batch : ℕ
  pub max_attempts : ℕ

-- The database and the broker.
pub record World (D B : Type 0) : Type 0 where
  pub db : D
  pub broker : B

abbrev pub on_db : {D B A : Type 0} → Exec D A → Exec (World D B) A
on_db m w = let (r, d) = m w.db in (r, record w { db = d })

abbrev pub on_broker : {D B A : Type 0} → Exec B A → Exec (World D B) A
on_broker m w = let (r, b) = m w.broker in (r, record w { broker = b })

-- `TransactionManager.run`: where the function throws, the database is what it was before.
abbrev pub rollback_if_thrown : {D B A : Type 0} → D → Outcome A × World D B → Outcome A × World D B
rollback_if_thrown before (returned a, w) = (returned a, w)
rollback_if_thrown before (thrown e, w) = (thrown e, record w { db = before })

abbrev pub transaction : {D B A : Type 0} → Exec (World D B) A → Exec (World D B) A
transaction m w = rollback_if_thrown w.db (m w)

-- `publish` is `EventPublisherService.publish` of a row's event, under the row's message id.
module _ {P B : Type 0} (D : Database P) (publish : Row P → Exec B Unit) (config : Config) where
  unfoldable pub relay_row : Row P → Exec (World D.State B) Unit
  relay_row row =
      try_catch (on_broker (publish row) >> on_db (mark_published D row.id))
        (λ e. on_db (mark_failed D row.id (config.poll_ms * 5) config.max_attempts))

  unfoldable pub relay_rows : List (Row P) → Exec (World D.State B) Unit
  relay_rows [] = pure tt
  relay_rows (row ∷ rows) = relay_row row >> relay_rows rows

  unfoldable pub drain_once : Exec (World D.State B) Unit
  drain_once = transaction (on_db (claim_pending D config.batch) >>= relay_rows)
