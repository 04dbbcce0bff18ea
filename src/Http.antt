-- ===== src/Http.antt =====
-- apps/control-plane/internal/httpapi/handler.go: the routes of the control plane, and the status of an
-- error.
pub mod Errors
pub mod Routes
pub mod Paths
mod Examples
