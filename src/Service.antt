-- ===== src/Service.antt =====
-- apps/control-plane/internal/service: the operations of the control plane over a repository, an
-- analyzer, a runner of verifications and a lifecycle bus.
pub mod System
pub mod Runs
pub mod Renaming
pub mod Analysis
pub mod Planning
pub mod Execution
pub mod Evaluation
pub mod Invariant
pub mod Slug
pub mod Portfolio
pub mod Connections
pub mod Ingest
pub mod Operations
pub mod Completion
mod Examples
