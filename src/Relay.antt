-- ===== src/Relay.antt =====
-- cmd/epistemic-relay/main.go: the relay that takes portable events, hides secrets in them, and hands
-- them to a provider that it tries again.
pub mod Redact
pub mod Retry
pub mod Server
pub mod Watch
mod Examples
