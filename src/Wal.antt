-- ===== src/Wal.antt =====
-- statix/src/wal
pub mod Circuit
pub mod Segment
pub mod Store
pub mod Recovery
pub mod Writer
pub mod Drainer
pub mod Sample
mod Examples
mod CodecExamples
mod RecoveryExamples
