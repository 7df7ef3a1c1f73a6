-- ===== src/Governance.antt =====
-- aegiscode/governance
pub mod Decision
pub mod Lexer
pub mod Rules
pub mod Fence
pub mod CommandFence
pub mod Approval
pub mod Dispatcher
pub mod Factory
mod Samples
