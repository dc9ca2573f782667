-- ===== src/Server.antt =====
-- The HTTP server: backend/internal/server.
pub mod Metrics
pub mod RequestId
pub mod Cors
