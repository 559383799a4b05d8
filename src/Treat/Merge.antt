-- ===== src/Treat/Merge.antt =====
-- What merge and sync make of the comparison of a path: the source is the left side, the
-- destination the right (treat/merge.rs, treat/merge_plan.rs).
pub mod Meaning
pub mod Settled
pub mod Safe
pub mod Unlisted
pub mod Subtrees
use remote_merge.Prelude.{
  ℕ, String, Bool, true, false, ◌&&◌, ◌||◌, List, [], ◌∷◌, ◌++◌, Option, none, some, any,
  if◌then◌else◌,
}
use remote_merge.Text.{Bytes}
use remote_merge.Scan.{LinkPoint}
use remote_merge.Paths.{is_below}
use remote_merge.Compare.State.{SideState}
use remote_merge.Compare.Verdict.{
  left, right, first, second, Verdict, both_absent, undecidable, one_sided, kind_differs, same,
  differs,
}
use remote_merge.Compare.Wording.{undecidable_text}
use remote_merge.Compare.Comparison.{PathComparison, pair}

pub record MergeOptions : Type 0 where
  pub delete : Bool

pub data Kind : Type 0 where
  file directory symlink other : Kind

-- `Kind::of`
unfoldable pub kind_of : SideState → Kind
kind_of (SideState.file _ _) = Kind.file
kind_of SideState.directory = Kind.directory
kind_of (SideState.symlink _ _) = Kind.symlink
kind_of SideState.absent = Kind.other
kind_of SideState.other = Kind.other
kind_of SideState.unreadable_name = Kind.other

pub data SkipReason : Type 0 where
  kind_mismatch : (source destination : Kind) → SkipReason
  destination_only : SkipReason
  link_not_deleted : SkipReason
  no_changes : SkipReason

pub data MergeEntry : Type 0 where
  write_file write_link delete : MergeEntry
  skip : SkipReason → MergeEntry
  fail : String → MergeEntry
  not_found absent nothing : MergeEntry

unfoldable pub counts_as_failure : SkipReason → Bool
counts_as_failure (kind_mismatch _ _) = true
counts_as_failure _ = false

-- `written`
written_by : Kind → MergeEntry
written_by Kind.file = write_file
written_by Kind.symlink = write_link
written_by _ = nothing

unfoldable pub written : SideState → MergeEntry
unfolding written_by kind_of
written source = written_by (kind_of source)

destination_only_by : Kind → Bool → MergeEntry
destination_only_by Kind.file true = delete
destination_only_by Kind.symlink true = skip link_not_deleted
destination_only_by Kind.file false = skip SkipReason.destination_only
destination_only_by Kind.symlink false = skip SkipReason.destination_only
destination_only_by _ _ = nothing

-- `destination_only`
unfoldable pub only_there : SideState → MergeOptions → MergeEntry
unfolding destination_only_by kind_of
only_there destination options = destination_only_by (kind_of destination) options.delete

link_to_directory : SideState → Bool
link_to_directory (SideState.symlink _ LinkPoint.directory) = true
link_to_directory _ = false

unfoldable pub directory_and_link_to_directory : SideState → SideState → Bool
unfolding link_to_directory
directory_and_link_to_directory SideState.directory b = link_to_directory b
directory_and_link_to_directory a SideState.directory = link_to_directory a
directory_and_link_to_directory _ _ = false

unfoldable pub entry_of : Verdict → SideState → SideState → MergeOptions → MergeEntry
unfolding undecidable_text written only_there directory_and_link_to_directory kind_of
entry_of both_absent source destination options = MergeEntry.absent
entry_of (undecidable why) source destination options = fail (undecidable_text why)
entry_of (one_sided first) source destination options = written source
entry_of (one_sided second) source destination options = only_there destination options
entry_of kind_differs source destination options =
    if directory_and_link_to_directory source destination
    then nothing
    else skip (kind_mismatch (kind_of source) (kind_of destination))
entry_of differs source destination options = written source
entry_of same source destination options = nothing

unfoldable pub merge_entry : PathComparison → MergeOptions → MergeEntry
unfolding entry_of
merge_entry comparison options = elim (pair comparison left right) [
  | none ↦ nothing
  | some judged ↦ elim (comparison.states.states left) [
    | none ↦ nothing
    | some source ↦ elim (comparison.states.states right) [
      | none ↦ nothing
      | some destination ↦ entry_of judged.verdict source destination options
    ]
  ]
]

unfoldable pub is_kind_mismatch : MergeEntry → Bool
is_kind_mismatch (skip (kind_mismatch _ _)) = true
is_kind_mismatch _ = false

-- The plan of one destination: paths and what becomes of each.
abbrev pub Plan : Type 0
Plan = List (Bytes × MergeEntry)

-- The loop: `skipped` holds the paths that were skipped for their kind, the last one first.
unfoldable pub without_below : List Bytes → Plan → Plan
unfolding is_kind_mismatch
without_below skipped [] = []
without_below skipped ((path, entry) ∷ entries) =
    let dropped = without_below skipped entries in
    let after =
      without_below (if is_kind_mismatch entry then path ∷ skipped else skipped) entries in
    if any (λ root. is_below path root) skipped then dropped else (path, entry) ∷ after

unfoldable pub without_skipped_subtrees : Plan → Plan
unfolding without_below
without_skipped_subtrees entries = without_below [] entries

abbrev pub success : ℕ
success = 0

abbrev pub diff_found : ℕ
diff_found = 1

abbrev pub error : ℕ
error = 2

unfoldable pub exit_code : Bool → List SkipReason → ℕ
unfolding counts_as_failure
exit_code failed skipped =
    if failed || any (λ reason. counts_as_failure reason) skipped then error else success

reason_of : MergeEntry → List SkipReason
reason_of (skip reason) = reason ∷ []
reason_of _ = []

unfoldable pub skip_reasons : Plan → List SkipReason
unfolding reason_of
skip_reasons [] = []
skip_reasons ((path, entry) ∷ entries) = reason_of entry ++ skip_reasons entries
