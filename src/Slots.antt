-- ===== src/Slots.antt =====
-- Slot generation: internal/slots.
pub mod Interval
pub mod Failure
pub mod WallClock
pub mod Day
pub mod Routing
pub mod Walk
pub mod Generate
mod Tests
