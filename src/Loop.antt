-- ===== src/Loop.antt =====
-- aegiscode/loop
pub mod Termination
pub mod Harness
pub mod Parts
pub mod Turn
