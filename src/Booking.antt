-- ===== src/Booking.antt =====
-- Bookings and their double-booking guard: internal/booking.
pub mod Stamp
pub mod Store
pub mod Conflict
pub mod Guarded
pub mod Locks
pub mod Create
pub mod Lifecycle
pub mod Tokens
pub mod Listing
mod Tests
