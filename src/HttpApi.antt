-- ===== src/HttpApi.antt =====
-- internal/httpapi: the HTTP transport. Logging is left out.
pub mod Response
pub mod Oidc
pub mod Ingest
pub mod Tasks
pub mod Burn
pub mod Health
pub mod Router
pub mod Middleware
pub mod Server
