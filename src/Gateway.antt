-- ===== src/Gateway.antt =====
-- apps/control-plane/internal/httpapi/protocol.go: the gateway that takes portable events and
-- decision requests, keeps its own indices of them, and calls the service behind it.
pub mod Failures
pub mod Reply
pub mod Portable
pub mod Context
pub mod Slots
pub mod State
pub mod Accept
pub mod Consistency
pub mod Rollback
pub mod Safety
pub mod Requests
pub mod Evaluate
pub mod Invariant
pub mod Queries
mod Examples
