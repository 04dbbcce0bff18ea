-- ===== src/Analyzer.antt =====
-- apps/control-plane/internal/analysis: the analyzer that reads claims and evidence off the events of a
-- run by rules.
pub mod Text
pub mod Evidence
pub mod Support
pub mod Sees
pub mod Rules
pub mod Gate
pub mod Review
pub mod Coverage
mod Examples
