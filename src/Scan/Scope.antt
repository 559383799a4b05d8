-- ===== src/Scan/Scope.antt =====
-- The scope of a scan from the directories named and the values of include
-- (crates/remote-merge-core/src/scan/starts.rs, include.rs), and the kinds of the failures of a scan
-- (failure_kind.rs).
use remote_merge.Prelude.{
  ℕ, suc, String, Bool, true, false, ◌||◌, List, [], ◌∷◌, ◌++◌, map, Option, none, some, Result, ok,
  err, any, filter, ◌==◌, nat_eq, list_eq, if◌then◌else◌,
}
use remote_merge.Text.{Bytes, slash, is_empty, trim_end}
use remote_merge.OpFailure.{
  OpFailure, not_a_directory, permission_denied, io, disconnected, root_gone, no_answer,
}
use remote_merge.Paths.{normalized, is_within}
use remote_merge.Resolve.{
  ResolvedPath, ResolveError, missing, ancestor_not_directory, exists, symlink,
}
use remote_merge.Scan.{
  Start, ScanScope, ReadCause, ScanFailure, root_missing, root_unreadable, root_not_directory,
  root_changed, start_blocked, start_unreadable, unreadable_directory, inconsistent_answer,
}

-- `Start::value`
abbrev pub value_start : Bytes → Start
value_start path = record { path = path; with_self = true; descend = true; group = 0 }

-- `Start::below`
abbrev pub below_start : Bytes → ℕ → Start
below_start path group = record { path = path; with_self = false; descend = true; group = group }

-- `Start::itself`
abbrev pub itself_start : Bytes → ℕ → Start
itself_start path group = record { path = path; with_self = true; descend = false; group = group }

-- `Start::check`
abbrev pub check_start : Bytes → ℕ → Start
check_start path group = record { path = path; with_self = false; descend = false; group = group }

unfoldable pub covered_by : Bytes → Bytes → Bool
unfolding is_within
covered_by path outer = is_empty outer || is_within path outer

unfoldable pub narrowed : Bytes → ℕ → List Bytes → List Start
unfolding covered_by normalized
narrowed dir group values =
    let path = normalized dir in
    if any (λ value. covered_by path (normalized value)) values
    then below_start dir group ∷ []
    else check_start dir group
      ∷ map (λ value. record { path = value; with_self = true; descend = true; group = group })
          (filter (λ value. covered_by (normalized value) path) values)

narrowed_from : ℕ → List Bytes → List Bytes → List Start
unfolding narrowed
narrowed_from group [] values = []
narrowed_from group (dir ∷ dirs) values =
    narrowed dir group values ++ narrowed_from (suc group) dirs values

below_from : ℕ → List Bytes → List Start
below_from group [] = []
below_from group (dir ∷ dirs) = below_start dir group ∷ below_from (suc group) dirs

unfoldable pub scope_for : Option (List Bytes) → Option (List Bytes) → ScanScope
unfolding narrowed_from below_from
scope_for none none = ScanScope.whole
scope_for none (some values) = ScanScope.starts (map value_start values)
scope_for (some dirs) none = ScanScope.starts (below_from 0 dirs)
scope_for (some dirs) (some values) = ScanScope.starts (narrowed_from 0 dirs values)

pub data ValueDecision : Type 0 where
  scan skip outside : ValueDecision

unfoldable pub is_inside : Bytes → Bytes → Bool
unfolding is_within trim_end
is_inside real_path real_root =
    real_path == real_root || is_within real_path (trim_end slash real_root)

unfoldable pub decide_value : ResolvedPath → Bytes → Result ResolveError ValueDecision
unfolding is_inside
decide_value (missing real_parent parent_exists) real_root = ok skip
decide_value (ancestor_not_directory real_path regular_file) real_root =
    err ResolveError.not_a_directory
decide_value (exists real_path kind) real_root =
    ok (if is_inside real_path real_root then scan else outside)
decide_value (symlink link_target real_path target_kind) real_root =
    ok (if is_inside real_path real_root then scan else outside)

of_cause : ReadCause → String → OpFailure
of_cause ReadCause.permission_denied reason = permission_denied
of_cause ReadCause.other reason = io reason

-- `message` is the wording of a failure.
unfoldable pub failure_kind : (ScanFailure → String) → ScanFailure → OpFailure
unfolding of_cause
failure_kind message root_missing = root_gone
failure_kind message root_changed = root_gone
failure_kind message root_not_directory = root_gone
failure_kind message (start_blocked path) = not_a_directory
failure_kind message (root_unreadable cause) = of_cause cause (message (root_unreadable cause))
failure_kind message (start_unreadable path cause) =
    of_cause cause (message (start_unreadable path cause))
failure_kind message (unreadable_directory path cause) =
    of_cause cause (message (unreadable_directory path cause))
failure_kind message (inconsistent_answer detail) =
    disconnected (no_answer (message (inconsistent_answer detail)))
failure_kind message failure = io (message failure)
