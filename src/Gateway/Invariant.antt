-- ===== src/Gateway/Invariant.antt =====
-- What holds of the gateway (apps/control-plane/internal/httpapi/protocol.go) after any requests: the
-- steps that a property of the gateway has to survive, and the handlers built from them.
pub mod Steps
pub mod Accept
pub mod Capacity
pub mod Handlers
pub mod Requests
pub mod Indices
pub mod Results
pub mod Approval
pub mod Backing
pub mod Streams
