-- ===== src/Prisma.antt =====
-- src/core/prisma: `PrismaService` chooses the client that repositories use, and opens transactions.
pub mod Port
pub mod Simulation
pub mod Relay
pub mod Memory
pub mod Tests
use nest_fastify_boilerplate.Prelude.{ℕ, String, Option, none, some, or_else}
use nest_fastify_boilerplate.Effects.{Outcome, Exec, pure, ◌>>=◌}
use nest_fastify_boilerplate.Outbox.Relay.{World, on_db}
use nest_fastify_boilerplate.Prisma.Port.{
  TransactionOptions, Client, proxy, target, inside, PrismaClient,
}

-- The store of an `AsyncLocalStorage`, which an asynchronous function reads wherever it runs.
abbrev pub Store : Type 0 → Type 0
Store Tx = Option (Client Tx)

-- An asynchronous function, by the store that it runs in. `B` is the world outside of the database.
abbrev pub Async : {D : Type 0} → PrismaClient D → Type 0 → Type 0 → Type 0
Async C B A = Store C.Tx → Exec (World C.State B) A

-- `proxied` is set by the constructor; `Object.create` leaves it undefined.
pub record PrismaService (Tx : Type 0) : Type 0 where
  pub proxied : Option (Client Tx)

abbrev pub constructed : {Tx : Type 0} → PrismaService Tx
constructed = record { proxied = some proxy }

module _ {D : Type 0} (C : PrismaClient D) (service : PrismaService C.Tx) where
  -- The getter runs on the raw target: `this` is the client without the delegates of the models.
  unfoldable pub db : Store C.Tx → Client C.Tx
  db store = or_else store (or_else service.proxied target)

  -- A method of a repository: statements on the client that `db` gives.
  unfoldable pub repository : {B A : Type 0} → Exec D A → Async C B A
  unfolding db
  repository m store = on_db (C.query (db store) m)

  unfoldable pub run_in_transaction :
      {B A : Type 0} → Async C B A → TransactionOptions → Async C B A
  run_in_transaction fn options store = C.transaction options (λ tx. fn (some (inside tx)))

  -- `PrismaTransactionManager.run`
  unfoldable pub run : {B A : Type 0} → Async C B A → TransactionOptions → Async C B A
  unfolding run_in_transaction
  run fn options = run_in_transaction fn options
