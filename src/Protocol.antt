-- ===== src/Protocol.antt =====
-- api/go and sdk/go: the portable protocol, its validation, and the providers that evaluate a
-- decision request or pass it on.
pub mod Types
pub mod Validation
pub mod Acceptance
pub mod Provider
pub mod Local
pub mod Composite
pub mod Gate
pub mod Persistence
pub mod Agreement
mod Examples
