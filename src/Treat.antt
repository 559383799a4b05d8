-- ===== src/Treat.antt =====
-- What each command makes of the comparison of a path
-- (crates/remote-merge-engine/src/treat).
pub mod Content
pub mod HunkMerge
pub mod Merge
pub mod MergePlan
pub mod Reference
pub mod Results
pub mod Rollback
pub mod Scope
pub mod Status
pub mod Sync
