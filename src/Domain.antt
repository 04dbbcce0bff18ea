-- ===== src/Domain.antt =====
-- apps/control-plane/internal/domain: the records that the control plane stores and serves. Their
-- JSON tags are not modelled, a nil slice is the empty list, and a `*time.Time` is an `Option`.
pub mod Status
pub mod Run
pub mod Claim
pub mod Certificate
pub mod Portfolio
pub mod Connection
pub mod Dashboard
pub mod Report
