-- ===== src/Gateway.antt =====
-- The gateway: backend/internal/gateway.
pub mod Types
pub mod Sessions
pub mod Serve
pub mod Connect
