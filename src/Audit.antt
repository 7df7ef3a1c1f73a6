-- ===== src/Audit.antt =====
-- aegiscode/audit
pub mod Events
pub mod Chain
