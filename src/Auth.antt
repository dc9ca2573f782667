-- ===== src/Auth.antt =====
-- backend/internal/auth: the accounts, their access tokens and refresh tokens.
pub mod Jwt
pub mod Tables
pub mod Service
pub mod Http
