-- ===== src/Prisma/Tests.antt =====
-- The outbox of Outbox/Tests.antt through transactions of Prisma/Memory.antt.
use nest_fastify_boilerplate.Prelude.{ℕ, ◌≡◌, ◌⊎◌, false, []}
use nest_fastify_boilerplate.Effects.{is_returned}
use nest_fastify_boilerplate.Outbox.Table.{Table, table}
use nest_fastify_boilerplate.Outbox.Relay.{World, drain_once}
use nest_fastify_boilerplate.Outbox.Tests.{three_events, send, settings}
use nest_fastify_boilerplate.Prisma.{constructed}
use nest_fastify_boilerplate.Prisma.Port.{PrismaClient}
use nest_fastify_boilerplate.Prisma.Memory.{Drafted, drafts}
use nest_fastify_boilerplate.Prisma.Relay.{prisma_drain_once, prisma_drain_once_lem}
use nest_fastify_boilerplate.Prisma.Simulation.{committed_result}

abbrev store : PrismaClient (Table ℕ)
store = drafts

abbrev kept_events : World (Drafted (Table ℕ)) ℕ
kept_events = record {
  db = record { stored = three_events.db; draft = record { rows = []; now = 0 } };
  broker = 0;
}

prisma_drain_once_lem_example :
    (committed_result store (prisma_drain_once table store constructed send settings kept_events)
      ≡ drain_once table send settings three_events)
    ⊎ ((is_returned (prisma_drain_once table store constructed send settings kept_events).0 ≡ false)
        × ((prisma_drain_once table store constructed send settings kept_events).1.db.stored
            ≡ kept_events.db.stored))
prisma_drain_once_lem_example =
    prisma_drain_once_lem table store constructed send settings kept_events
