-- ===== src/Messaging.antt =====
-- src/core/messaging
pub mod Constants
pub mod Contracts
pub mod Payloads
pub mod Topology
pub mod Message
pub mod Publisher
pub mod Consume
pub mod Routing
pub mod Delivery
pub mod Wiring
pub mod Tests
