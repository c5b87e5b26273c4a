-- ===== src/Outbox.antt =====
-- src/core/outbox
pub mod Rows
pub mod Repository
pub mod Relay
pub mod Schedule
pub mod Table
pub mod Tests
