-- ===== src/Treat/MergePlan.antt =====
-- The plan of merge and sync for one destination, over all paths that were compared
-- (treat/merge_plan.rs).
pub mod Items
pub mod Passed
pub mod Changes
pub mod Order
pub mod Complete
use remote_merge.Prelude.{
  ℕ, suc, ◌+◌, String, Bool, true, false, not, ◌&&◌, ◌||◌, List, [], ◌∷◌, ◌++◌, map, Option, none,
  some, Result, ok, err, ◌==◌, nat_eq, list_eq, any, filter, length, ltb, leb, if◌then◌else◌,
}
use remote_merge.Text.{Bytes, strip_prefix, at_most}
use remote_merge.Content.{is_utf8}
use remote_merge.OpFailure.{OpFailure}
use remote_merge.Scan.{LinkPoint}
use remote_merge.Paths.{ancestors}
use remote_merge.Compare.State.{SideState}
use remote_merge.Compare.Verdict.{
  Role, left, right, role_eq, SideFailure, Undecidable, read_failed, Verdict,
}
use remote_merge.Compare.Wording.{undecidable_text}
use remote_merge.Compare.Contents.{ReadOutcome, read_outcome}
use remote_merge.Compare.Settle.{PairVerdict}
use remote_merge.Compare.Comparison.{PathComparison, pair}
use remote_merge.Treat.Merge.{
  MergeOptions, MergeEntry, write_file, write_link, delete, skip, fail, not_found, absent, nothing,
  kind_mismatch, Plan, merge_entry, is_kind_mismatch, without_skipped_subtrees,
}
use remote_merge.Treat.Reference.{ReferenceFailure, ReferenceCheck, reference_check}
use remote_merge.Treat.Scope.{MergeScope, whole, MergeTargets, has_name, selects}

-- `change_counts`: the paths that are written, and those that are deleted.
is_write : MergeEntry → Bool
is_write write_file = true
is_write write_link = true
is_write _ = false

is_delete : MergeEntry → Bool
is_delete delete = true
is_delete _ = false

unfoldable pub change_counts : Plan → ℕ × ℕ
unfolding is_write is_delete
change_counts plan = (
  length (filter (λ (item : Bytes × MergeEntry). is_write item.1) plan),
  length (filter (λ (item : Bytes × MergeEntry). is_delete item.1) plan),
)

pub record MissingNames : Type 0 where
  pub names : List Bytes
  pub all_missing : Bool

is_not_found : MergeEntry → Bool
is_not_found not_found = true
is_not_found _ = false

unfoldable pub not_found_names : Plan → List Bytes
unfolding is_not_found
not_found_names plan =
    map (λ (item : Bytes × MergeEntry). item.0)
      (filter (λ (item : Bytes × MergeEntry). is_not_found item.1) plan)

-- The loop over the plans of the destinations; none is one that could not be compared.
missing_from : List Bytes → Bool → List (Option Plan) → ℕ → MissingNames
unfolding not_found_names
missing_from names all_missing [] named = record { names = names; all_missing = all_missing }
missing_from names all_missing (none ∷ plans) named = missing_from names false plans named
missing_from names all_missing (some plan ∷ plans) named =
    missing_from (names ++ not_found_names plan)
      (all_missing && length (not_found_names plan) == named) plans named

unfoldable pub missing_names : List (Option Plan) → ℕ → MissingNames
unfolding missing_from
missing_names plans named = missing_from [] (ltb 0 named) plans named

abbrev pub link_unverifiable : String
link_unverifiable =
    "the destination symlink target is not plain UTF-8, so it cannot be told unchanged since it was compared"

abbrev pub source_link_not_utf8 : String
source_link_not_utf8 = "the link target of the source is not valid UTF-8"

pub record PlanOptions : Type 0 where
  pub delete : Bool
  pub reference_check : Bool

-- `BTreeMap<String, PathComparison>`, ascending by the path.
abbrev pub Comparisons : Type 0
Comparisons = List (Bytes × PathComparison)

unfoldable pub get : Bytes → Comparisons → Option PathComparison
get path [] = none
get path ((other, comparison) ∷ rest) =
    let behind = get path rest in if other == path then some comparison else behind

-- `ReferenceFailure::text`
reference_text : ReferenceFailure → String
reference_text ReferenceFailure.destination_changed = "destination changed since reference"
reference_text ReferenceFailure.conflict = "three-way conflict"
reference_text ReferenceFailure.not_in_reference =
    "destination exists but is not in the reference, so it cannot be told unchanged"
reference_text ReferenceFailure.incomplete = "three-way comparison incomplete"
reference_text (ReferenceFailure.undecided why) = why

-- The side's link leads to a text that is not UTF-8, or that holds U+FFFD.
replacement_character : Bytes
replacement_character = 0xef ∷ 0xbf ∷ 0xbd ∷ []

-- `text.contains(needle)`
has_infix : Bytes → Bytes → Bool
has_infix needle [] = false
has_infix needle (c ∷ cs) = elim (strip_prefix (c ∷ cs) needle) [
  | some _ ↦ true
  | none ↦ has_infix needle cs
]

unverifiable_target : Option SideState → Bool
unfolding is_utf8 has_infix replacement_character
unverifiable_target (some (SideState.symlink target _)) =
    if is_utf8 target then has_infix replacement_character target else true
unverifiable_target _ = false

unfoldable pub destination_link_unverifiable : PathComparison → Bool
unfolding unverifiable_target
destination_link_unverifiable comparison = unverifiable_target (comparison.states.states right)

utf8_target : Option SideState → Bool
unfolding is_utf8
utf8_target (some (SideState.symlink target _)) = is_utf8 target
utf8_target _ = true

unfoldable pub source_link_is_utf8 : PathComparison → Bool
unfolding utf8_target
source_link_is_utf8 comparison = utf8_target (comparison.states.states left)

leads_to_directory : Option SideState → Bool
leads_to_directory (some SideState.directory) = true
leads_to_directory (some (SideState.symlink _ LinkPoint.directory)) = true
leads_to_directory _ = false

unfoldable pub skipped_over_a_directory : MergeEntry → PathComparison → Bool
unfolding leads_to_directory is_kind_mismatch
skipped_over_a_directory entry comparison =
    is_kind_mismatch entry && leads_to_directory (comparison.states.states right)

failed_sides : Option PairVerdict → List SideFailure
failed_sides none = []
failed_sides (some judged) = elim judged.verdict [
  | Verdict.undecidable why ↦ elim why [ read_failed sides ↦ sides | _ ↦ [] ]
  | _ ↦ []
]

with_right : List SideFailure → SideFailure → List SideFailure
with_right sides failed =
    if any (λ side. side.role == right) sides then sides else sides ++ failed ∷ []

unread_destination : List SideFailure → SideFailure → MergeEntry
unfolding with_right undecidable_text
unread_destination sides failed = fail (undecidable_text (read_failed (with_right sides failed)))

-- What becomes of an entry whose destination could not be read.
failed_entry : MergeEntry → List SideFailure → SideFailure → MergeEntry
unfolding unread_destination
failed_entry write_file sides failed = unread_destination sides failed
failed_entry write_link sides failed = unread_destination sides failed
failed_entry delete sides failed = unread_destination sides failed
failed_entry (fail why) [] failed = fail why
failed_entry (fail why) (side ∷ sides) failed = unread_destination (side ∷ sides) failed
failed_entry entry sides failed = entry

-- Losing the connection, or root_dir, is left to the steps of the change.
unless_stopped : MergeEntry → PathComparison → SideFailure → MergeEntry
unfolding read_outcome failed_sides failed_entry
unless_stopped entry comparison failed = elim (read_outcome (failed ∷ [])) [
  | ReadOutcome.stopped _ ↦ entry
  | _ ↦ failed_entry entry (failed_sides (pair comparison left right)) failed
]

unfoldable pub with_destination_read_failure : MergeEntry → PathComparison → MergeEntry
unfolding unless_stopped
with_destination_read_failure entry comparison = elim (comparison.hashes right) [
  | none ↦ entry
  | some hash ↦ elim hash [
    | ok _ ↦ entry
    | err failure ↦ unless_stopped entry comparison (record { role = right; failure = failure })
  ]
]

checked : MergeEntry → PathComparison → Bool → MergeEntry
unfolding reference_text
checked entry comparison false = entry
checked entry comparison true = elim (reference_check comparison) [
  | ReferenceCheck.write ↦ entry
  | ReferenceCheck.fail failure ↦ fail (reference_text failure)
]

-- The entry of a path that is considered, none where nothing is done.
unfoldable pub listed_entry : MergeEntry → PathComparison → PlanOptions → Option MergeEntry
unfolding checked
listed_entry write_link comparison options =
    if destination_link_unverifiable comparison
    then some (fail link_unverifiable)
    else if not (source_link_is_utf8 comparison)
    then some (fail source_link_not_utf8)
    else some (checked write_link comparison options.reference_check)
listed_entry write_file comparison options =
    some (checked write_file comparison options.reference_check)
listed_entry absent comparison options = none
listed_entry nothing comparison options = none
listed_entry entry comparison options = some entry

unfoldable pub place : Bytes × MergeEntry → Plan → Plan
place item [] = item ∷ []
place item (other ∷ plan) =
    let rest = place item plan in
    if at_most item.0 other.0 then item ∷ other ∷ plan else other ∷ rest

-- `sort_by` is stable.
unfoldable pub sort_by_path : Plan → Plan
unfolding place
sort_by_path [] = []
sort_by_path (item ∷ plan) = place item (sort_by_path plan)

abbrev pub options_of : PlanOptions → MergeOptions
options_of options = record { delete = options.delete }

is_absent : MergeEntry → Bool
is_absent absent = true
is_absent _ = false

-- Neither side has the name.
unfoldable pub is_missing : Comparisons → PlanOptions → Bytes → Bool
unfolding is_absent
is_missing paths options name = elim (get name paths) [
  | none ↦ true
  | some comparison ↦ is_absent (merge_entry comparison (options_of options))
]

unfoldable pub missing : Comparisons → MergeTargets → PlanOptions → List Bytes
unfolding is_missing
missing paths targets options = filter (is_missing paths options) targets.named

concat : List (List Bytes) → List Bytes
concat [] = []
concat (xs ∷ xss) = xs ++ concat xss

unfoldable pub ancestors_of_found : Comparisons → MergeTargets → PlanOptions → List Bytes
unfolding concat has_name missing
ancestors_of_found paths targets options = concat (
    map ancestors
      (filter (λ name. not (has_name (missing paths targets options) name)) targets.named))

is_whole : MergeScope → Bool
is_whole whole = true
is_whole _ = false

module _ (paths : Comparisons) (targets : MergeTargets) (options : PlanOptions) where
  unfoldable pub considered : Bytes → PathComparison → Bool
  unfolding is_whole
  considered path comparison =
      selects targets path
      || (is_whole targets.scope
          && (has_name (ancestors_of_found paths targets options) path
              && skipped_over_a_directory (merge_entry comparison (options_of options)) comparison))

  unfoldable pub entry_of_path : Bytes → PathComparison → Option MergeEntry
  entry_of_path path comparison =
      if has_name (missing paths targets options) path
      then none
      else if considered path comparison
      then listed_entry
          (with_destination_read_failure (merge_entry comparison (options_of options)) comparison)
          comparison options
      else none

  abbrev cons_entry : Bytes → Option MergeEntry → Plan → Plan
  cons_entry path none plan = plan
  cons_entry path (some entry) plan = (path, entry) ∷ plan

  -- The loop over the paths compared.
  unfoldable pub entries : Comparisons → Plan
  entries [] = []
  entries ((path, comparison) ∷ rest) =
      cons_entry path (entry_of_path path comparison) (entries rest)

  unfoldable pub merge_plan : Plan
  merge_plan = sort_by_path (
      without_skipped_subtrees (entries paths)
      ++ map (λ name. (name, not_found)) (missing paths targets options))
