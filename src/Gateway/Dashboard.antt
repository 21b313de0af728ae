-- ===== src/Gateway/Dashboard.antt =====
-- The dashboard read tier, statix-gateway/src/routes/dashboard.
pub mod Cache
pub mod Limiter
pub mod Query
pub mod Sql
pub mod State
pub mod Health
pub mod Handlers
mod Examples
mod HandlerExamples
