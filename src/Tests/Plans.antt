-- ===== src/Tests/Plans.antt =====
-- Whole plans: the subtrees left out, status, sync, the scope of a merge and its reference.
use remote_merge.Prelude.{list_eq, nat_eq, true, false, List, [], ◌∷◌, none, ◌≡◌, refl}
use remote_merge.Text.{codes}
use remote_merge.Compare.State.{SideState}
use remote_merge.Compare.Verdict.{first, one_sided}
use remote_merge.Compare.Comparison.{PathComparison}
use remote_merge.Treat.Merge.{
  Kind, write_file, delete, skip, kind_mismatch, Plan, without_skipped_subtrees,
}
use remote_merge.Treat.Merge.Subtrees.{outside_mismatches, without_skipped_subtrees-outside}
use remote_merge.Paths.{RelPath}
use remote_merge.Treat.Reference.{write, reference_check}
use remote_merge.Treat.Reference.Unmoved.{Unmoved, reference_check-write}
use remote_merge.Treat.Scope.{selects, merge_targets}
use remote_merge.Treat.Scope.Covered.{covers, merge_targets-covers}
use remote_merge.Treat.Status.{FileStatus, FileStatusKind, summary, shown, status_exit_code}
use remote_merge.Tests.Treat.{a_file, compared, on_sides}

abbrev small_plan : Plan
small_plan =
    (codes "d", skip (kind_mismatch Kind.file Kind.directory))
    ∷ (codes "d/x", delete)
    ∷ (codes "e", write_file)
    ∷ []

without_skipped_subtrees-outside_example :
    without_skipped_subtrees small_plan ≡ outside_mismatches [] small_plan
without_skipped_subtrees-outside_example = without_skipped_subtrees-outside small_plan

abbrev two_files : List FileStatus
two_files =
    record { path = codes "a"; status = FileStatusKind.equal; ref_badge = none }
    ∷ record { path = codes "b"; status = FileStatusKind.modified; ref_badge = none }
    ∷ []

abbrev src_dir : RelPath
src_dir = record { typed = codes "src/" }

lib_selected : selects (merge_targets (src_dir ∷ []) false) (codes "src/lib.rs") ≡ true
unfolding merge_targets selects remote_merge.Paths.normalized nat_eq list_eq
    remote_merge.Paths.ancestors
lib_selected = refl

merge_targets-covers_example :
    covers (merge_targets (src_dir ∷ []) false).scope (codes "src/lib.rs") ≡ true
merge_targets-covers_example =
    merge_targets-covers src_dir [] false (codes "src/lib.rs") lib_selected

abbrev never_there : PathComparison
never_there = compared (on_sides a_file SideState.absent) (one_sided first)

new_written : reference_check never_there ≡ write
unfolding reference_check remote_merge.Treat.Status.present
new_written = refl

reference_check-write_example : Unmoved never_there
reference_check-write_example = reference_check-write never_there new_written
