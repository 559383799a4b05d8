-- ===== src/Treat/Status.antt =====
-- What status makes of the comparison of a path, its summary and its exit code (treat/status.rs).
pub mod Counts
use remote_merge.Prelude.{
  ℕ, String, Bool, true, false, not, ◌&&◌, ◌||◌, List, [], ◌∷◌, ◌++◌, Option, none, some, Eq, ◌==◌,
  any, filter, length, ltb, if◌then◌else◌,
}
use remote_merge.Text.{Bytes, is_empty}
use remote_merge.Compare.State.{SideState, absent, directory}
use remote_merge.Compare.Verdict.{
  Role, left, right, ref, first, second, Verdict, both_absent, undecidable, one_sided, kind_differs,
  same,
}
use remote_merge.Compare.Wording.{undecidable_text}
use remote_merge.Compare.Settle.{PairVerdict}
use remote_merge.Compare.Comparison.{PathComparison, pair}
use remote_merge.Treat.Merge.{success, diff_found, error}

pub data FileStatusKind : Type 0 where
  modified left_only right_only equal : FileStatusKind

FileStatusKind-discrete : Discrete FileStatusKind
FileStatusKind-discrete = hlevel

instance unfoldable pub file_status_kind_eq : Eq FileStatusKind
unfolding FileStatusKind-discrete
file_status_kind_eq = record { dec = FileStatusKind-discrete }

pub data StatusEntry : Type 0 where
  listed : FileStatusKind → StatusEntry
  unreadable : String → StatusEntry
  not_listed : StatusEntry

is_directory : SideState → Bool
is_directory directory = true
is_directory _ = false

present_state : Option SideState → List SideState
present_state none = []
present_state (some absent) = []
present_state (some state) = state ∷ []

-- Every side that has the path has a directory there, and one of them has it.
unfoldable pub only_directories : PathComparison → Bool
unfolding present_state is_directory
only_directories comparison =
    let present =
      present_state (comparison.states.states left)
      ++ present_state (comparison.states.states right) in
    not (is_empty present) && not (any (λ state. not (is_directory state)) present)

status_of : Verdict → StatusEntry
unfolding undecidable_text
status_of (one_sided first) = listed left_only
status_of (one_sided second) = listed right_only
status_of kind_differs = listed modified
status_of Verdict.differs = listed modified
status_of same = listed equal
status_of (undecidable why) = unreadable (undecidable_text why)
status_of both_absent = not_listed

unfoldable pub status_entry : PathComparison → StatusEntry
unfolding only_directories status_of
status_entry comparison = elim (pair comparison left right) [
  | none ↦ not_listed
  | some left_right ↦
      if only_directories comparison then not_listed else status_of left_right.verdict
]

pub data RefBadge : Type 0 where
  missing_in_ref differs all_equal : RefBadge

RefBadge-discrete : Discrete RefBadge
RefBadge-discrete = hlevel

instance unfoldable pub ref_badge_eq : Eq RefBadge
unfolding RefBadge-discrete
ref_badge_eq = record { dec = RefBadge-discrete }

pub data RefMark : Type 0 where
  badge : RefBadge → RefMark
  unreadable : String → RefMark

unfoldable pub present : PathComparison → Role → Bool
unfolding present_state
present comparison role = not (is_empty (present_state (comparison.states.states role)))

verdict_of : Option PairVerdict → List Verdict
verdict_of none = []
verdict_of (some judged) = judged.verdict ∷ []

-- The verdicts of the pairs with the reference, left before right.
with_ref : PathComparison → List Verdict
unfolding verdict_of
with_ref comparison =
    verdict_of (pair comparison left ref) ++ verdict_of (pair comparison right ref)

is_kind_differs : Verdict → Bool
is_kind_differs kind_differs = true
is_kind_differs _ = false

is_same : Verdict → Bool
is_same same = true
is_same _ = false

-- The loop over `with_ref`: the first reason why there is no verdict, else `otherwise`.
first_unreadable : List Verdict → RefMark → RefMark
unfolding undecidable_text
first_unreadable [] otherwise = otherwise
first_unreadable (undecidable why ∷ verdicts) otherwise = unreadable (undecidable_text why)
first_unreadable (_ ∷ verdicts) otherwise = first_unreadable verdicts otherwise

unfoldable pub ref_mark : PathComparison → RefMark
unfolding present with_ref verdict_of is_kind_differs is_same first_unreadable
ref_mark comparison =
    let verdicts = verdict_of (pair comparison left right) ++ with_ref comparison in
    if not (present comparison ref)
    then badge missing_in_ref
    else if not (present comparison left && present comparison right)
    then badge RefBadge.differs
    else if any (λ verdict. is_kind_differs verdict) verdicts
    then badge RefBadge.differs
    else first_unreadable (with_ref comparison) (
        badge
          (if any (λ verdict. not (is_same verdict)) verdicts then RefBadge.differs else all_equal))

pub record RefCounts : Type 0 where
  pub differs : ℕ
  pub only : ℕ
  pub missing : ℕ

has_badge : RefBadge → RefMark → Bool
has_badge wanted (badge found) = found == wanted
has_badge wanted (unreadable _) = false

unfoldable pub ref_counts : List RefMark → ℕ → RefCounts
unfolding has_badge
ref_counts marks only_in_ref = record {
  differs = length (filter (λ mark. has_badge RefBadge.differs mark) marks);
  only = only_in_ref;
  missing = length (filter (λ mark. has_badge missing_in_ref mark) marks);
}

pub record FileStatus : Type 0 where
  pub path : Bytes
  pub status : FileStatusKind
  pub ref_badge : Option String

pub record StatusSummary : Type 0 where
  pub modified : ℕ
  pub left_only : ℕ
  pub right_only : ℕ
  pub equal : ℕ
  pub ref_differs : Option ℕ
  pub ref_only : Option ℕ
  pub ref_missing : Option ℕ
  pub unreadable : ℕ

unfoldable pub count : List FileStatus → FileStatusKind → ℕ
count files kind = length (filter (λ file. file.status == kind) files)

counted : (RefCounts → ℕ) → Option RefCounts → Option ℕ
counted field none = none
counted field (some counts) = some (field counts)

unfoldable pub summary : List FileStatus → ℕ → Option RefCounts → StatusSummary
unfolding count counted
summary files failed reference = record {
  modified = count files FileStatusKind.modified;
  left_only = count files left_only;
  right_only = count files right_only;
  equal = count files FileStatusKind.equal;
  ref_differs = counted (λ counts. counts.differs) reference;
  ref_only = counted (λ counts. counts.only) reference;
  ref_missing = counted (λ counts. counts.missing) reference;
  unreadable = failed;
}

unfoldable pub is_changed : FileStatus → Bool
is_changed file = not (file.status == FileStatusKind.equal)

unfoldable pub shown : List FileStatus → Bool → List FileStatus
unfolding is_changed
shown files all = if all then files else filter (λ file. is_changed file) files

-- `exit_code`
unfoldable pub status_exit_code : List FileStatus → ℕ → ℕ
unfolding is_changed
status_exit_code files failed =
    if ltb 0 failed
    then error
    else if any (λ file. is_changed file) files
    then diff_found
    else success
