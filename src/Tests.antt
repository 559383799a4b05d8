-- ===== src/Tests.antt =====
-- Concrete runs of the theorems.
mod ChangeCheck
mod Compare
mod Config
mod Conflict
mod Diff
mod Framing
mod HunkMerge
mod MergePlan
mod Paths
mod Plans
mod Resolve
mod Results
mod Rollback
mod Scan
mod Settle
mod Treat
