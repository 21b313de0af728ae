-- ===== src/Gateway.antt =====
-- The gateway, statix-gateway/src: the ingest route, the ClickHouse writer behind it, and the
-- read side.
pub mod Writer
pub mod Ingest
pub mod Dashboard
mod Examples
