-- ===== src/Treat/Results.antt =====
-- The result lists of one destination of merge and sync, and their totals
-- (crates/remote-merge-engine/src/treat/merge_result.rs, sync.rs and service/types.rs).
pub mod Once
use remote_merge.Prelude.{
  ℕ, ◌+◌, String, Bool, true, false, ◌&&◌, List, [], ◌∷◌, ◌++◌, Option, none, some, if◌then◌else◌,
}
use remote_merge.Text.{Bytes, is_empty, at_most}

pub record MergeFileResult : Type 0 where
  pub path : Bytes
  pub status : String
  pub backup : Option String
  pub ref_badge : Option String

pub data DeleteStatus : Type 0 where
  deleted would_delete : DeleteStatus

pub record DeleteFileResult : Type 0 where
  pub path : Bytes
  pub status : DeleteStatus
  pub backup : Option String

pub record MergeSkipped : Type 0 where
  pub path : Bytes
  pub reason : String

pub record MergeFailure : Type 0 where
  pub path : Bytes
  pub error : String

pub data Outcome : Type 0 where
  merged : (backup ref_badge : Option String) → Outcome
  would_merge : (ref_badge : Option String) → Outcome
  deleted : (backup : Option String) → Outcome
  would_delete : Outcome
  skipped failed failed_after_change : String → Outcome

pub record TargetLists : Type 0 where
  pub merged : List MergeFileResult
  pub skipped : List MergeSkipped
  pub deleted : List DeleteFileResult
  pub failed : List MergeFailure
  pub changed_but_failed : Bool

-- `TargetLists::default`
abbrev pub no_lists : TargetLists
no_lists = record {
  merged = [];
  skipped = [];
  deleted = [];
  failed = [];
  changed_but_failed = false;
}

-- `TargetLists::is_empty`
unfoldable pub no_results : TargetLists → Bool
no_results lists =
    is_empty lists.merged
    && (is_empty lists.skipped && (is_empty lists.deleted && is_empty lists.failed))

place_outcome : Bytes × Outcome → List (Bytes × Outcome) → List (Bytes × Outcome)
unfolding at_most
place_outcome item [] = item ∷ []
place_outcome item (next ∷ items) =
    let rest = place_outcome item items in
    if at_most item.0 next.0 then item ∷ next ∷ items else next ∷ rest

-- `sort_by` is stable.
sort_outcomes : List (Bytes × Outcome) → List (Bytes × Outcome)
unfolding place_outcome
sort_outcomes [] = []
sort_outcomes (item ∷ items) = place_outcome item (sort_outcomes items)

-- One turn of the loop. The whole file was merged, so there is no `hunk_info`.
put_outcome : Bytes → Outcome → TargetLists → TargetLists
put_outcome path (Outcome.merged backup ref_badge) lists = record lists {
  merged =
      lists.merged
      ++ record { path = path; status = "ok"; backup = backup; ref_badge = ref_badge } ∷ [];
}
put_outcome path (would_merge ref_badge) lists = record lists {
  merged =
      lists.merged
      ++ record { path = path; status = "would merge"; backup = none; ref_badge = ref_badge } ∷ [];
}
put_outcome path (Outcome.deleted backup) lists = record lists {
  deleted =
      lists.deleted ++ record { path = path; status = DeleteStatus.deleted; backup = backup } ∷ [];
}
put_outcome path Outcome.would_delete lists = record lists {
  deleted =
      lists.deleted
      ++ record { path = path; status = DeleteStatus.would_delete; backup = none } ∷ [];
}
put_outcome path (Outcome.skipped reason) lists = record lists {
  skipped = lists.skipped ++ record { path = path; reason = reason } ∷ [];
}
put_outcome path (Outcome.failed error) lists = record lists {
  failed = lists.failed ++ record { path = path; error = error } ∷ [];
}
put_outcome path (failed_after_change error) lists = record lists {
  failed = lists.failed ++ record { path = path; error = error } ∷ [];
  changed_but_failed = true;
}

put_outcomes : List (Bytes × Outcome) → TargetLists → TargetLists
unfolding put_outcome
put_outcomes [] lists = lists
put_outcomes ((path, outcome) ∷ items) lists = put_outcomes items (put_outcome path outcome lists)

unfoldable pub target_lists : List (Bytes × Outcome) → TargetLists
unfolding sort_outcomes put_outcomes
target_lists outcomes = put_outcomes (sort_outcomes outcomes) no_lists
