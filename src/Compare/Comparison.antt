-- ===== src/Compare/Comparison.antt =====
-- The result of comparing one path, as the commands read it (compare/comparison.rs).
use remote_merge.Prelude.{
  String, Bool, true, false, ◌&&◌, List, [], ◌∷◌, Option, none, some, Result, ok, err, ◌==◌,
  if◌then◌else◌,
}
use remote_merge.Text.{Bytes}
use remote_merge.OpFailure.{OpFailure}
use remote_merge.Scan.{LinkPoint}
use remote_merge.Compare.State.{SideState, absent, other, file, directory, symlink}
use remote_merge.Compare.Verdict.{Role, role_eq}
use remote_merge.Compare.Table.{PathStates}
use remote_merge.Compare.Settle.{Hashes, PairVerdict}
use remote_merge.Compare.Recheck.{Observed}

pub record PathComparison : Type 0 where
  pub states : PathStates
  pub pairs : List PairVerdict
  pub hashes : Hashes
  pub contents : Role → Option (Result OpFailure Bytes)

pub data NotObserved : Type 0 where
  not_collected not_hashed unreadable_name : NotObserved

unfoldable pub find_pair : Role → Role → List PairVerdict → Option PairVerdict
find_pair first second [] = none
find_pair first second (v ∷ vs) =
    if v.pair.first == first && v.pair.second == second then some v else find_pair first second vs

unfoldable pub pair : PathComparison → Role → Role → Option PairVerdict
unfolding find_pair
pair comparison first second = find_pair first second comparison.pairs

observed_file : Option (Result OpFailure String) → Result NotObserved Observed
observed_file (some (ok hash)) = ok (Observed.file hash)
observed_file (some (err _)) = err not_hashed
observed_file none = err not_hashed

observed_state : Option SideState → Option (Result OpFailure String) → Result NotObserved Observed
unfolding observed_file
observed_state none hash = err not_collected
observed_state (some absent) hash = ok Observed.absent
observed_state (some SideState.unreadable_name) hash = err NotObserved.unreadable_name
observed_state (some other) hash = ok Observed.other
observed_state (some directory) hash = ok Observed.directory
observed_state (some (symlink target _)) hash = ok (Observed.symlink target)
observed_state (some (file _ _)) hash = observed_file hash

-- The state of the side as it was compared, for the check before a change.
unfoldable pub observed : PathComparison → Role → Result NotObserved Observed
unfolding observed_state
observed comparison role = observed_state (comparison.states.states role) (comparison.hashes role)

-- A regular file, or a link to something that is not a directory.
unfoldable pub has_content : SideState → Bool
has_content (file _ _) = true
has_content (symlink _ LinkPoint.not_directory) = true
has_content _ = false
