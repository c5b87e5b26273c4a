-- ===== src/Lib.antt =====
-- nest-fastify-boilerplate: a NestJS service on Fastify, with locks and rate limits in Redis, messages over
-- RabbitMQ, and a transactional outbox from the database to the broker.
--
-- How the parts work together. A request passes the guards (Http/Guards), its result or its exception is
-- put into an envelope (Http/Interceptor, Http/Filter). A write that is to be announced stores an event in
-- the outbox in the same transaction (Outbox/Repository); the relay reads batches of pending events and
-- publishes them (Outbox/Relay), again and again (Outbox/Schedule). The publisher checks an event against
-- its contract and sends it to the events exchange (Messaging/Publisher); the topology (Messaging/Topology)
-- routes it to a queue for each subscriber. The consumer (Messaging/Consume) runs the handler under a lock
-- of the message's id (Redis/Lock, on the scripts of Redis/Scripts), keeps a marker of what was handled,
-- and sends what failed through retry queues and at last to the dead-letter queue. The settings of all
-- this come from the environment (Config), and so do those of Better Auth (Auth), of the logger (Logger)
-- and of the two processes (Bootstrap). The consumers (Consumers) turn the events into jobs of the mail
-- queue (Mail); the outbox reaches the database by the clients of Prisma (Prisma).
--
-- How code is modelled. An asynchronous method is a function from a state to an outcome (returned or
-- thrown) and a state (Effects). Timers and event loops are step relations (Redis/Watchdog,
-- Outbox/Schedule); clients that race are sequences of actions (Redis/Scripts/Fencing). A store of
-- AsyncLocalStorage is an argument of the functions that run in it (Prisma). Numbers are
-- natural numbers, times are milliseconds.
--
-- The files, and the code that each models:
--   Prelude, Prelude/Tests, /Lists, /Decimal: shared names; Boolean tests, lists, decimal digits.
--   Effects: outcomes, try/catch/finally; AppException of src/common/exceptions/app.exception.ts.
--   Config/Text, /Rules, /Schema, /Validation: src/core/config/env.schema.ts: the fields of envSchema with
--     their rules and defaults, superRefine, validateEnv; Config/Schema/Reading and
--     Config/Validation/Laws and /Retries are proofs.
--   Redis/Port, Redis/Memory: what is relied on of the commands of Redis, and an instance.
--   Redis/Scripts: acquireLock, extendLock, releaseLock of src/core/redis/scripts; /Locking has their effect
--     on each key, /Spec and /Lease the specification as leases, /Fencing runs of many clients.
--   Redis/Lock, Redis/Lock/Arguments, /Keys: validateLockArgs, acquire, retryAcquire, withLock, buildLock of
--     src/core/redis/services/lock.service.ts, and src/core/redis/ports/lock.service.port.ts; /Retry and
--     /Holding are proofs. Redis/Watchdog: startWatchdog of the same file.
--   Redis/RateLimit, /Commands, /Window, /Limit, /Memory: src/core/redis/scripts/rate-limit.lua.ts and
--     src/core/redis/services/rate-limit.service.ts.
--   Redis/Cache, Redis/Cache/Hits: src/core/redis/services/cache.service.ts.
--   Redis/Renewal, Redis/Renewal/Running: buildLock and withLock of src/core/redis/services/lock.service.ts,
--     where a lock renews itself; Redis/Renewal/Keeping is a proof.
--   Redis/Decorator: src/core/redis/decorators/with-lock.decorator.ts.
--   Redis/PubSub: src/core/redis/services/pubsub.service.ts; /Delivery and /Sync are proofs.
--   Redis/Client: src/core/redis/redis.provider.ts, src/core/redis/redis.module.ts.
--   Messaging/Constants, /Contracts, /Payloads, /Topology, /Publisher, /Consume: messaging.constants.ts,
--     messaging.contracts.ts (in two files), topology.ts, event-publisher.service.ts and consume.ts of
--     src/core/messaging; Messaging/Message has messages and headers; Topology/Bound, Routing, Delivery,
--     Consume/Accounts, Consume/Locks, Consume/Attempts and Consume/Markers are proofs. Messaging/Wiring puts
--     the consumer on the cache and the locks of Redis.
--   Outbox/Rows, Outbox/Repository: the model OutboxEvent of prisma/schema.prisma and
--     src/core/outbox/outbox.repository.prisma.ts; Outbox/Table is an instance of the database.
--     Outbox/Relay, Outbox/Schedule: drainOnce and the timer of src/core/outbox/outbox-relay.service.ts;
--     Relay/Verdicts, Relay/Drain and Relay/Consistency are proofs.
--   Http/Status, /Filter, /Interceptor, /Guards, /BasicAuth: response.types.ts, http-exception.filter.ts,
--     response.interceptor.ts, better-auth.guard.ts, roles.guard.ts and basic-auth.ts of src/common, and
--     the order of the guards in src/app.module.ts; Http/Filter/Laws has proofs.
--   Http/Documentation: api-envelope.decorator.ts and error-response.dto.ts of src/common/http; Http/Json
--     has JSON values and schemas. Http/Statuses: the statuses that api-envelope.decorator.ts documents.
--   Users, Users/Paging: users.service.ts, users.controller.ts and list-users-query.dto.ts of
--     src/modules/users.
--   Prisma, Prisma/Port: src/core/prisma; Prisma/Simulation has proofs, Prisma/Relay the relay of the outbox
--     through it, and Prisma/Memory an instance.
--   Mail, Mail/Jobs: the producer, the processor and the controller of src/modules/mail.
--   Consumers: src/modules/users/consumers/user-registered.consumer.ts,
--     src/modules/notifications/consumers/notifications.consumer.ts, src/core/messaging/unrouted.consumer.ts
--     and src/core/messaging/messaging.module.ts; /Attached, /Registration and /Once are
--     proofs. Consumers/Notifications: src/modules/notifications/controllers/notifications.controller.ts.
--   Auth, Auth/Providers: src/core/auth/auth.ts and src/core/auth/auth-options.ts.
--   Bootstrap: src/main.ts and src/main.worker.ts; /Bridge is the
--     handler of /api/auth; /RequestId, /Origins and /Worker are proofs.
--   Logger, Logger/Levels: src/core/logger. Health: src/core/health and src/core/messaging/messaging.health.ts.
--   The files Tests of these folders, and Redis/RenewalTests: runs on concrete inputs.
--
-- Parameters, with what is relied on stated as laws or as hypotheses: the commands of Redis, each at one
-- reading of the server's clock; the database of the outbox, whose statements fail only on a missing row;
-- the broker; the schemas (zod); the session that Better Auth finds; translations; base64; random tokens;
-- the two connections of pub/sub; the queue of BullMQ; the transactions of the Prisma client.
--
-- The watchdog of a lock stands twice: as a step relation without a clock, in which any order of timers and
-- answers is a run (Redis/Watchdog), and with its period on the server's clock (Redis/Renewal).
--
-- Bounds and fuel. The retry loop of the lock takes a list of turns, one for each round, with what the
-- clock, the random numbers and the other clients do in it. A round takes at least a millisecond, as
-- setTimeout does, so more turns than milliseconds to wait are enough. A token is drawn from a stream
-- that may be any; nothing relies on two tokens differing.
--
-- Left out: log lines; fractions of milliseconds and negative results of Lua; calls of the cache and of the
-- rate limit that are rejected (those of the lock may be); headers whose number of attempts is negative
-- or no whole number, which this code never writes; timeouts of database transactions, but for a refused
-- commit; calls of one pub/sub channel that overlap; what libraries do with their options (Swagger, pino,
-- BullMQ); the DTOs of single routes, but for the query of the users; and the wiring of modules. Where the
-- drain of the outbox is rolled back as a whole, what the broker took stays taken.
pub mod Prelude
pub mod Effects
pub mod Config
pub mod Redis
pub mod Messaging
pub mod Outbox
pub mod Http
pub mod Users
pub mod Prisma
pub mod Mail
pub mod Consumers
pub mod Auth
pub mod Bootstrap
pub mod Logger
pub mod Health
