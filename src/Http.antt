-- ===== src/Http.antt =====
-- common: what every HTTP request passes through.
pub mod Status
pub mod Filter
pub mod Interceptor
pub mod Guards
pub mod BasicAuth
pub mod Json
pub mod Documentation
pub mod Statuses
pub mod Tests
