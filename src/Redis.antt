-- ===== src/Redis.antt =====
-- src/core/redis
pub mod Port
pub mod Memory
pub mod Scripts
pub mod Lock
pub mod Watchdog
pub mod Renewal
pub mod RateLimit
pub mod Cache
pub mod Decorator
pub mod Client
pub mod PubSub
pub mod Tests
pub mod RenewalTests
