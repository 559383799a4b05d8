-- ===== src/Diff.antt =====
-- Line differences, their hunks and the merge of chosen hunks (crates/remote-merge-core/src/diff).
pub mod Script
pub mod Hunks
pub mod Apply
pub mod Conflict
