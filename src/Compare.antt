-- ===== src/Compare.antt =====
-- The compare flow (crates/remote-merge-core/src/compare): the state of a path on each side, the
-- judgement of a pair of sides, and how contents and failures settle it.
pub mod State
pub mod Verdict
pub mod Wording
pub mod Judge
pub mod Method
pub mod Contents
pub mod Table
pub mod Pairs
pub mod Settle
pub mod Recheck
pub mod Comparison
