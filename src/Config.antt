-- ===== src/Config.antt =====
-- src/core/config: the environment, read once when the application starts.
pub mod Text
pub mod Rules
pub mod Schema
pub mod Validation
pub mod Tests
