-- ===== src/Db.antt =====
-- The database layer: internal/db.
pub mod Rebind
mod Tests
