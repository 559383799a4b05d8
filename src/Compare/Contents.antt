-- ===== src/Compare/Contents.antt =====
-- How failures to read and hashes settle a pair (compare/contents.rs).
pub mod Reading
use remote_merge.Prelude.{
  String, List, [], ◌∷◌, ◌++◌, Result, ok, err, ◌==◌, string_eq, if◌then◌else◌,
}
use remote_merge.OpFailure.{
  OpFailure, not_found, not_a_directory, permission_denied, too_large, io, disconnected, root_gone,
}
use remote_merge.Compare.Verdict.{
  Role, SideFailure, Undecidable, Verdict, read_failed, same, differs,
}

pub data FailureHandling : Type 0 where
  undecidable : FailureHandling
  by_reconnection : FailureHandling
  stop_side : FailureHandling

unfoldable pub read_failure_handling : OpFailure → FailureHandling
read_failure_handling not_found = FailureHandling.undecidable
read_failure_handling not_a_directory = FailureHandling.undecidable
read_failure_handling permission_denied = FailureHandling.undecidable
read_failure_handling (too_large _ _) = FailureHandling.undecidable
read_failure_handling (io _) = FailureHandling.undecidable
read_failure_handling (disconnected _) = by_reconnection
read_failure_handling root_gone = stop_side

pub data ContentJudgement : Type 0 where
  decided : Verdict → ContentJudgement
  stopped : SideFailure → ContentJudgement

pub data ReadOutcome : Type 0 where
  read : ReadOutcome
  undecidable : Undecidable → ReadOutcome
  stopped : SideFailure → ReadOutcome

unfoldable pub outcome_of : List SideFailure → ReadOutcome
outcome_of [] = read
outcome_of (f ∷ fs) = ReadOutcome.undecidable (read_failed (f ∷ fs))

-- The loop: `seen` holds the failures that leave the pair undecidable.
read_outcome_from : List SideFailure → List SideFailure → ReadOutcome
unfolding read_failure_handling outcome_of
read_outcome_from seen [] = outcome_of seen
read_outcome_from seen (failed ∷ failures) =
    let rest = read_outcome_from (seen ++ (failed ∷ [])) failures in
    elim (read_failure_handling failed.failure) [
      | by_reconnection ↦ ReadOutcome.stopped failed
      | stop_side ↦ ReadOutcome.stopped failed
      | FailureHandling.undecidable ↦ rest
    ]

unfoldable pub read_outcome : List SideFailure → ReadOutcome
unfolding read_outcome_from
read_outcome failures = read_outcome_from [] failures

failure_of : Role → Result OpFailure String → List SideFailure
failure_of role (ok hash) = []
failure_of role (err failure) = record { role = role; failure = failure } ∷ []

both_read : Result OpFailure String → Result OpFailure String → Verdict
both_read (ok a) (ok b) = if a == b then same else differs
both_read _ _ = differs

unfoldable pub judge_hashes :
    Role → Result OpFailure String → Role → Result OpFailure String → ContentJudgement
unfolding read_outcome failure_of both_read
judge_hashes first_role first second_role second =
    elim (read_outcome (failure_of first_role first ++ failure_of second_role second)) [
      | stopped failed ↦ ContentJudgement.stopped failed
      | ReadOutcome.undecidable why ↦ ContentJudgement.decided (Verdict.undecidable why)
      | read ↦ ContentJudgement.decided (both_read first second)
    ]
