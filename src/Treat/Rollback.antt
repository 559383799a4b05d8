-- ===== src/Treat/Rollback.antt =====
-- Which files of a backup session a rollback restores (treat/rollback.rs).
pub mod Session
pub mod Harmless
pub mod Restored
use remote_merge.Prelude.{
  String, ◌<>◌, Bool, true, false, not, ◌&&◌, ◌||◌, List, [], ◌∷◌, map, Option, none, some, Result,
  ok, err, ◌>>=◌, ◌==◌, nat_eq, list_eq, filter, if◌then◌else◌,
}
use remote_merge.Text.{Bytes, slash, split, starts_with, is_empty}
use remote_merge.Content.{is_utf8}
use remote_merge.FilePath.{same_path, has_parent}
use remote_merge.Compare.State.{SideState}
use remote_merge.Compare.Verdict.{target, not_regular_file}
use remote_merge.Compare.Verdict
use remote_merge.Compare.Wording.{undecidable_text}
use remote_merge.Resolve.{ExistingKind, ResolvedPath, missing, exists, ancestor_not_directory}

pub data Recorded : Type 0 where
  file : (real_path : Bytes) → Recorded
  link_update : (expected_target real_parent : Bytes) → Recorded
  replaced_link : Recorded

pub data TargetFacts : Type 0 where
  unresolvable : (cause : String) → TargetFacts
  resolved : (state : SideState) (entry parent : ResolvedPath) → TargetFacts

pub data RestoreEntry : Type 0 where
  restore : RestoreEntry
  skip : String → RestoreEntry
  fail : String → RestoreEntry

pub data Judged : Type 0 where
  entry : RestoreEntry → Judged
  blocks : String → Judged
  unresolvable : String → Judged

pub data BackupRecord : Type 0 where
  file : (real_path content : Bytes) → BackupRecord
  symlink : (link_target : Bytes) (expected_target real_parent : Option Bytes) → BackupRecord

abbrev parent_gone : String
parent_gone = "parent directory no longer exists"

abbrev link_not_supported : String
link_not_supported = "symlink restore not supported"

abbrev changed_location : String
changed_location = "path now resolves to a different location"

abbrev link_changed : String
link_changed = "symlink changed after merge"

abbrev unresolvable_text : String
unresolvable_text = "cannot resolve path: "

-- `Path::to_str`; the error keeps the path that it names.
path_text : Bytes → Result Bytes Bytes
path_text path = if is_utf8 path then ok path else err path

unfoldable pub recorded : BackupRecord → Result Bytes Recorded
unfolding path_text
recorded (BackupRecord.file real_path content) = do
  real ← path_text real_path
  ok (Recorded.file real)
recorded (BackupRecord.symlink link_target (some expected_target) (some real_parent)) = do
  expected ← path_text expected_target
  parent ← path_text real_parent
  ok (link_update expected parent)
recorded (BackupRecord.symlink link_target expected_target real_parent) = ok replaced_link

-- A regular file where the record was made from one.
unfoldable pub judge_found : Bytes → ResolvedPath → Judged
unfolding same_path
judge_found recorded_path (exists real_path ExistingKind.file) =
    if same_path real_path recorded_path then entry restore else blocks changed_location
judge_found recorded_path _ = blocks changed_location

-- Nothing where the record was made from a file.
unfoldable pub judge_absent : Bytes → ResolvedPath → Judged
unfolding has_parent
judge_absent recorded_path (missing real_parent false) = entry (skip parent_gone)
judge_absent recorded_path (ancestor_not_directory _ _) = entry (skip parent_gone)
judge_absent recorded_path (missing real_parent true) =
    if has_parent recorded_path real_parent then entry restore else blocks changed_location
judge_absent recorded_path _ = blocks changed_location

unfoldable pub judge_file : Bytes → SideState → ResolvedPath → Judged
unfolding judge_found judge_absent undecidable_text
judge_file recorded_path SideState.other found =
    entry (fail (undecidable_text (not_regular_file (target ∷ []))))
judge_file recorded_path SideState.directory found =
    entry (fail (undecidable_text (not_regular_file (target ∷ []))))
judge_file recorded_path SideState.unreadable_name found =
    entry (fail (undecidable_text Verdict.Undecidable.unreadable_name))
judge_file recorded_path (SideState.symlink _ _) found = blocks changed_location
judge_file recorded_path (SideState.file _ _) found = judge_found recorded_path found
judge_file recorded_path SideState.absent found = judge_absent recorded_path found

unfoldable pub judge_parent : Bytes → ResolvedPath → Judged
unfolding same_path
judge_parent recorded_parent (exists real_path _) =
    if same_path real_path recorded_parent then entry restore else blocks changed_location
judge_parent recorded_parent (ResolvedPath.symlink _ real_path _) =
    if same_path real_path recorded_parent then entry restore else blocks changed_location
judge_parent recorded_parent _ = blocks changed_location

unfoldable pub judge_link : Bytes → Bytes → SideState → ResolvedPath → Judged
unfolding judge_parent
judge_link expected_target recorded_parent (SideState.symlink found _) parent =
    if found == expected_target then judge_parent recorded_parent parent else blocks link_changed
judge_link expected_target recorded_parent _ parent = blocks link_changed

unfoldable pub judge : Recorded → TargetFacts → Judged
unfolding judge_file judge_link
judge replaced_link facts = entry (skip link_not_supported)
judge record' (TargetFacts.unresolvable cause) = Judged.unresolvable cause
judge (Recorded.file real_path) (resolved state found parent) = judge_file real_path state found
judge (link_update expected_target real_parent) (resolved state found parent) =
    judge_link expected_target real_parent state parent

abbrev pub Session : Type 0
Session = List (Bytes × Recorded × TargetFacts)

-- `find_map` over the judgements.
first_unresolvable : List (Bytes × Judged) → Option String
first_unresolvable [] = none
first_unresolvable ((path, Judged.unresolvable cause) ∷ rest) = some cause
first_unresolvable ((path, entry e) ∷ rest) = first_unresolvable rest
first_unresolvable ((path, blocks reason) ∷ rest) = first_unresolvable rest

first_blocking : List (Bytes × Judged) → Option String
first_blocking [] = none
first_blocking ((path, blocks reason) ∷ rest) = some reason
first_blocking ((path, entry e) ∷ rest) = first_blocking rest
first_blocking ((path, Judged.unresolvable cause) ∷ rest) = first_blocking rest

unfoldable pub entry_for : Judged → Option String → Option String → RestoreEntry
entry_for (Judged.unresolvable cause) _ _ = fail (unresolvable_text <> cause)
entry_for _ (some cause) _ = fail (unresolvable_text <> cause)
entry_for (blocks reason) none _ = skip reason
entry_for (entry restore) none (some reason) = skip reason
entry_for (entry e) none _ = e

unfoldable pub judge_all : Session → List (Bytes × Judged)
unfolding judge
judge_all paths =
    map (λ (item : Bytes × Recorded × TargetFacts). (item.0, judge item.1 item.2)) paths

unfoldable pub rollback_plan : Session → List (Bytes × RestoreEntry)
unfolding judge_all first_unresolvable first_blocking entry_for
rollback_plan paths =
    let judged = judge_all paths in
    map
      (λ (item : Bytes × Judged).
        (item.0, entry_for item.1 (first_unresolvable judged) (first_blocking judged)))
      judged
