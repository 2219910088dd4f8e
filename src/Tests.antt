-- ===== src/Tests.antt =====
-- Small systems and runs of the code on them.
mod Fixtures
pub mod Lifecycle
pub mod Sessions
pub mod Matrices
pub mod Blueprints
pub mod Pools
pub mod Tasks
pub mod Access
pub mod Creation
pub mod Messages
pub mod Storage
pub mod Limits
pub mod Scaling
pub mod Readiness
pub mod Requests
