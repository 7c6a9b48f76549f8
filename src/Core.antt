-- ===== src/Core.antt =====
-- The core that both capture modules share: src/core.
pub mod Carbon
pub mod Json
pub mod Audit
pub mod Release
