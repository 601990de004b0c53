-- ===== src/Handler.antt =====
-- The request handlers of internal/handler that keep state of their own.
pub mod Roles
pub mod Hours
pub mod Overrides
pub mod Schedule
mod Tests
pub mod Idempotency
