-- ===== src/Go.antt =====
-- What the Go code takes from its language and standard library: fallible calls and methods on a
-- shared value (Effect), maps (Map), strings (Text), sorting (Sort), numbers (Numbers).
pub mod Effect
pub mod Map
pub mod Distinct
pub mod Numbers
pub mod Text
pub mod Split
pub mod Sort
pub mod Keeps
