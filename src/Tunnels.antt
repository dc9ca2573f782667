-- ===== src/Tunnels.antt =====
-- Public tunnels: backend/internal/tunnels.
pub mod Registry
pub mod RequestBody
pub mod PublicHandler
pub mod Subdomain
pub mod Service
pub mod PublicHost
