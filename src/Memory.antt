-- ===== src/Memory.antt =====
-- apps/control-plane/internal/store/memory.go, memory_portfolio.go, memory_integration.go: the
-- repository in memory. Each method holds the mutex from its first line to its return, so it is one
-- step on the maps.
pub mod State
pub mod Runs
pub mod Verifications
pub mod Decisions
pub mod Graph
pub mod Portfolio
pub mod Connections
mod Examples
