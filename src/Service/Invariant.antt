-- ===== src/Service/Invariant.antt =====
-- Invariants of the repository under the operations of apps/control-plane/internal/service. A
-- repository that keeps a property under each of its methods, given what the service hands it,
-- keeps it under each operation.
pub mod Base
pub mod Requests
pub mod Outcomes
pub mod Issuing
pub mod Accounts
pub mod Certificates
pub mod Verifications
pub mod Uniqueness
pub mod Ingesting
pub mod Reach
pub mod Safety
