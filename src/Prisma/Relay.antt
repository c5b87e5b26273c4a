-- ===== src/Prisma/Relay.antt =====
-- `drainOnce` of src/core/outbox/outbox-relay.service.ts through the repository on `PrismaService` and
-- the transaction manager of src/core/prisma, against Outbox/Relay.antt, which has one database.
use nest_fastify_boilerplate.Prelude.{
  ◌*◌, none, some, List, [], ◌∷◌, ◌≡◌, ◌⊎◌, inl, inr, sym, false, refl,
}
use nest_fastify_boilerplate.Effects.{
  Outcome, Exec, returned, thrown, is_returned, pure, try_catch, ◌>>=◌, ◌>>◌,
}
use nest_fastify_boilerplate.Outbox.Rows.{Row, Database}
use nest_fastify_boilerplate.Outbox.Repository.{claim_pending, mark_published, mark_failed}
use nest_fastify_boilerplate.Outbox.Relay.{
  Config, World, on_db, on_broker, relay_row, relay_rows, drain_once,
}
use nest_fastify_boilerplate.Prisma.{PrismaService, Async, db, repository, run}
use nest_fastify_boilerplate.Prisma.Port.{TransactionOptions, inside, PrismaClient}
use nest_fastify_boilerplate.Prisma.Simulation.{
  Simulates, AllOrNothing, committed, committed_result, Simulates-query, Simulates-on_broker,
  Simulates-bind, Simulates-try_catch, run-AllOrNothing,
}

abbrev pub drain_options : TransactionOptions
drain_options = record { max_wait = some 5000; timeout = some 30_000 }

module _ {P B : Type 0} (D : Database P) (C : PrismaClient D.State) (service : PrismaService C.Tx)
    (publish : Row P → Exec B Unit) (config : Config) where
  abbrev prisma_relay_row : Row P → Async C B Unit
  prisma_relay_row row store =
      try_catch (on_broker (publish row) >> repository C service (mark_published D row.id) store)
        (λ e.
          repository C service (mark_failed D row.id (config.poll_ms * 5) config.max_attempts)
            store)

  abbrev prisma_relay_rows : List (Row P) → Async C B Unit
  prisma_relay_rows [] store = pure tt
  prisma_relay_rows (row ∷ rows) store = prisma_relay_row row store >> prisma_relay_rows rows store

  abbrev prisma_batch : Async C B Unit
  prisma_batch store = repository C service (claim_pending D config.batch) store >>= λ rows.
      prisma_relay_rows rows store

  -- `drainOnce`, which is called outside of any transaction.
  unfoldable pub prisma_drain_once : Exec (World C.State B) Unit
  prisma_drain_once = run C service prisma_batch drain_options none

  abbrev batch : Exec (World D.State B) Unit
  batch = on_db (claim_pending D config.batch) >>= relay_rows D publish config

  Simulates-relay_row :
      (tx : C.Tx) (row : Row P) (w : World C.State B)
      → Simulates C tx (prisma_relay_row row (some (inside tx))) (relay_row D publish config row) w
  unfolding repository db relay_row
  Simulates-relay_row tx row w =
      Simulates-try_catch C tx _ _ _ _ w
        (Simulates-bind C tx _ _ _ _ w (Simulates-on_broker C tx (publish row) w)
          (λ a. Simulates-query C tx (mark_published D row.id) _))
        (λ x. Simulates-query C tx _ _)

  Simulates-relay_rows :
      (tx : C.Tx) (rows : List (Row P)) (w : World C.State B)
      → Simulates C tx
          (prisma_relay_rows rows (some (inside tx)))
          (relay_rows D publish config rows)
          w
  unfolding relay_rows
  Simulates-relay_rows tx [] w = record { outcome = refl; after = refl; hidden = refl }
  Simulates-relay_rows tx (row ∷ rows) w =
      Simulates-bind C tx _ _ _ _ w (Simulates-relay_row tx row w)
        (λ a. Simulates-relay_rows tx rows _)

  Simulates-batch :
      (tx : C.Tx) (w : World C.State B) → Simulates C tx (prisma_batch (some (inside tx))) batch w
  unfolding repository db
  Simulates-batch tx w =
      Simulates-bind C tx _ _ _ _ w (Simulates-query C tx (claim_pending D config.batch) w)
        (λ rows. Simulates-relay_rows tx rows _)

  settled :
      (w : World C.State B) (r : Outcome Unit × World C.State B)
      → AllOrNothing C batch (committed C w) (committed_result C r)
      → (committed_result C r ≡ drain_once D publish config (committed C w))
        ⊎ ((is_returned r.0 ≡ false) × (C.contents r.1.db ≡ C.contents w.db))
  unfolding drain_once
  settled w (returned _, v) h = inl (sym h)
  settled w (thrown x, v) h = inr (refl, h)

-- `drainOnce` on Prisma either does to what is committed, and answers, what `drain_once` does on one
-- database, or it is rejected and what is committed is as before: every statement of the repository
-- runs in the transaction. What the broker took stays taken.
pub prisma_drain_once_lem :
    {P B : Type 0} (D : Database P) (C : PrismaClient D.State) (service : PrismaService C.Tx)
    (publish : Row P → Exec B Unit) (config : Config) (w : World C.State B)
    → (committed_result C (prisma_drain_once D C service publish config w)
        ≡ drain_once D publish config (committed C w))
      ⊎ ((is_returned (prisma_drain_once D C service publish config w).0 ≡ false)
          × (C.contents (prisma_drain_once D C service publish config w).1.db ≡ C.contents w.db))
unfolding prisma_drain_once
prisma_drain_once_lem D C service publish config w = settled D C service publish config w _ (
    run-AllOrNothing C service (prisma_batch D C service publish config)
      (batch D C service publish config) drain_options w
      (Simulates-batch D C service publish config))
