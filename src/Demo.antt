-- ===== src/Demo.antt =====
-- aegiscode/demo
pub mod Scenarios
pub mod Registry
pub mod Events
pub mod Manager
pub mod Wiring
mod Samples
