-- ===== src/Server.antt =====
-- Middleware of the HTTP server: internal/server/middleware.go.
pub mod RateLimit
pub mod ClientIp
pub mod Bucket
mod Tests
