-- ===== src/Service.antt =====
-- aegiscode/service, and the repositories it reads
pub mod Projection
pub mod Workspace
pub mod Tasks
pub mod Resolver
pub mod Assembly
pub mod Readers
pub mod Api
mod Samples
