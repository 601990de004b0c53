-- ===== src/Worker.antt =====
-- The background worker of internal/worker.
pub mod Queue
mod Tests
