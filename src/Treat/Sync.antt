-- ===== src/Treat/Sync.antt =====
-- The state of each destination of sync (treat/sync.rs).
pub mod Outcome
use remote_merge.Prelude.{
  ℕ, ◌+◌, length, filter, Bool, true, false, not, ◌&&◌, ◌||◌, List, [], ◌∷◌, any, if◌then◌else◌,
}
use remote_merge.Text.{Bytes, is_empty}
use remote_merge.Treat.Results.{TargetLists, MergeFileResult, DeleteFileResult, MergeFailure}
use remote_merge.Treat.Merge.{
  MergeEntry, write_file, write_link, delete, skip, fail, not_found, absent, nothing, Plan,
  counts_as_failure, skip_reasons, error,
}

unfoldable pub nothing_to_do : MergeEntry → Bool
unfolding counts_as_failure
nothing_to_do (skip reason) = not (counts_as_failure reason)
nothing_to_do nothing = true
nothing_to_do absent = true
nothing_to_do write_file = false
nothing_to_do write_link = false
nothing_to_do delete = false
nothing_to_do (fail _) = false
nothing_to_do not_found = false

unfoldable pub nothing_to_sync : Plan → Bool
unfolding nothing_to_do
nothing_to_sync [] = true
nothing_to_sync ((path, entry) ∷ plan) = nothing_to_do entry && nothing_to_sync plan

pub data SyncTargetStatus : Type 0 where
  success partial failed : SyncTargetStatus

unfoldable pub target_status : Bool → Bool → SyncTargetStatus
target_status true false = SyncTargetStatus.success
target_status false false = SyncTargetStatus.success
target_status true true = partial
target_status false true = failed

unfoldable pub status_of_target : TargetLists → Plan → Bool → SyncTargetStatus
unfolding target_status counts_as_failure skip_reasons
status_of_target lists plan stopped =
    target_status
      (not (is_empty lists.merged) || not (is_empty lists.deleted) || lists.changed_but_failed)
      (not (is_empty lists.failed)
        || stopped
        || any (λ reason. counts_as_failure reason) (skip_reasons plan))

succeeded : SyncTargetStatus → Bool
succeeded SyncTargetStatus.success = true
succeeded _ = false

all_succeeded : List SyncTargetStatus → Bool
unfolding succeeded
all_succeeded [] = true
all_succeeded (status ∷ statuses) = succeeded status && all_succeeded statuses

-- `exit_code`
unfoldable pub sync_exit_code : List SyncTargetStatus → ℕ
unfolding all_succeeded
sync_exit_code statuses = if all_succeeded statuses then remote_merge.Treat.Merge.success else error

-- What the summary reads of the result of a destination.
pub record SyncTargetResult : Type 0 where
  pub merged : List MergeFileResult
  pub deleted : List DeleteFileResult
  pub failed : List MergeFailure
  pub status : SyncTargetStatus

pub record SyncSummary : Type 0 where
  pub total_servers : ℕ
  pub successful_servers : ℕ
  pub total_files_merged : ℕ
  pub total_files_deleted : ℕ
  pub total_files_failed : ℕ

total : (SyncTargetResult → ℕ) → List SyncTargetResult → ℕ
total size [] = 0
total size (r ∷ rs) = size r + total size rs

unfoldable pub sync_summary : List SyncTargetResult → SyncSummary
unfolding total succeeded
sync_summary results = record {
  total_servers = length results;
  successful_servers = length (filter (λ (r : SyncTargetResult). succeeded r.status) results);
  total_files_merged = total (λ r. length r.merged) results;
  total_files_deleted = total (λ r. length r.deleted) results;
  total_files_failed = total (λ r. length r.failed) results;
}
