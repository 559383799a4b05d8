-- ===== src/Diff/Conflict.antt =====
-- Conflicts of a three-way comparison: the changes that both sides make to the same lines of the
-- reference (diff/conflict.rs).
pub mod Changes
pub mod Order
pub mod Passed
pub mod Numbering
pub mod Total
pub mod Clash
pub mod Covers
pub mod Merged
pub mod Regions
pub mod Shown
use remote_merge.Prelude.{
  ℕ, suc, zero, ◌+◌, min, max, Bool, true, false, not, ◌&&◌, List, [], ◌∷◌, ◌++◌, map, Option, none,
  some, ◌==◌, list_eq, nat_eq, if◌then◌else◌, leb, ltb, length,
}
use remote_merge.Text.{Bytes, trim_end}
use remote_merge.Content.{Text, Range}
use remote_merge.Diff.Script.{DiffTag, equal, delete, insert, DiffLine, Change}
use remote_merge.Diff.Hunks.{DiffResult, same, modified, build_script}

pub record ConflictRegion : Type 0 where
  pub ref_range : Range
  pub left_lines : List Bytes
  pub right_lines : List Bytes

pub record Overlap : Type 0 where
  pub ref_range : Range
  pub left_file_lines : List ℕ
  pub right_file_lines : List ℕ

pub record ChangeInfo : Type 0 where
  pub replacement : List Bytes
  pub ref_line_count : ℕ
  pub file_lines : List ℕ

-- `BTreeSet::insert` on the ascending list of the items.
unfoldable pub set_insert : ℕ → List ℕ → List ℕ
set_insert k [] = k ∷ []
set_insert k (j ∷ js) =
    let rest = set_insert k js in
    if ltb k j then k ∷ j ∷ js else if k == j then j ∷ js else j ∷ rest

-- `BTreeSet::extend`
unfoldable pub set_extend : List ℕ → List ℕ → List ℕ
unfolding set_insert
set_extend items [] = items
set_extend items (k ∷ ks) = set_extend (set_insert k items) ks

-- `BTreeMap<usize, ChangeInfo>`, ascending by the line of the reference.
abbrev pub Changes : Type 0
Changes = List (ℕ × ChangeInfo)

-- `BTreeMap::insert`
unfoldable pub put : ℕ → ChangeInfo → Changes → Changes
put k info [] = (k, info) ∷ []
put k info ((j, old) ∷ rest) =
    let behind = put k info rest in
    if ltb k j
    then (k, info) ∷ (j, old) ∷ rest
    else if k == j
    then (k, info) ∷ rest
    else (j, old) ∷ behind

abbrev pub is_delete : DiffLine → Bool
is_delete line = elim line.tag [ delete ↦ true | insert ↦ false | equal ↦ false ]

abbrev pub is_insert : DiffLine → Bool
is_insert line = elim line.tag [ insert ↦ true | delete ↦ false | equal ↦ false ]

-- The lines that a loop `while test(lines[i])` goes over, and those where it stops.
unfoldable pub run : (DiffLine → Bool) → List DiffLine → List DiffLine
run test [] = []
run test (l ∷ ls) = let rest = run test ls in if test l then l ∷ rest else []

unfoldable pub after_run : (DiffLine → Bool) → List DiffLine → List DiffLine
after_run test [] = []
after_run test (l ∷ ls) = let rest = after_run test ls in if test l then rest else l ∷ ls

unfoldable pub add_index : Option ℕ → List ℕ → List ℕ
unfolding set_insert
add_index none items = items
add_index (some index) items = set_insert index items

-- `file_lines` after the loop over the inserted lines.
unfoldable pub new_indices : List DiffLine → List ℕ → List ℕ
unfolding add_index
new_indices [] items = items
new_indices (l ∷ ls) items = new_indices ls (add_index l.new_index items)

-- The change that deletes `count` lines and then inserts the lines given.
unfoldable pub change_of : ℕ → List DiffLine → ChangeInfo
unfolding new_indices
change_of count inserted = record {
  replacement = map (λ l. l.value) inserted;
  ref_line_count = count;
  file_lines = new_indices inserted [];
}

-- The place of an insertion: one past the last line of the reference among the lines before, which
-- stand last line first.
unfoldable pub insert_at : List DiffLine → ℕ
insert_at [] = 0
insert_at (l ∷ ls) =
    let further = insert_at ls in elim l.old_index [ some index ↦ index + 1 | none ↦ further ]

-- `run` reversed onto the lines before.
unfoldable pub passed : List DiffLine → List DiffLine → List DiffLine
passed [] before = before
passed (l ∷ ls) before = passed ls (l ∷ before)

-- The `while` loop on fuel, with the lines before `i` and those from `i` on. `none` is a panic: a
-- deleted line without its number, or fuel that ran out.
unfoldable pub extract_from : ℕ → List DiffLine → List DiffLine → Changes → Option Changes
unfolding run after_run change_of put insert_at passed
extract_from zero before lines changes = none
extract_from (suc fuel) before [] changes = some changes
extract_from (suc fuel) before (l ∷ ls) changes = elim l.tag [
  | delete ↦ elim l.old_index [
    | none ↦ none
    | some ref_start ↦
        let deleted = run is_delete (l ∷ ls) in
        let behind = after_run is_delete (l ∷ ls) in
        let inserted = run is_insert behind in
        extract_from fuel (passed inserted (passed deleted before)) (after_run is_insert behind)
          (put ref_start (change_of (length deleted) inserted) changes)
  ]
  | insert ↦
      let inserted = run is_insert (l ∷ ls) in
      extract_from fuel (passed inserted before) (after_run is_insert (l ∷ ls))
        (put (insert_at before) (change_of 0 inserted) changes)
  | equal ↦ extract_from fuel (l ∷ before) ls changes
]

-- Each turn takes a line, so a turn more than there are lines is enough.
unfoldable pub extract_changes : DiffResult → Option Changes
unfolding extract_from
extract_changes same = some []
extract_changes (modified hunks merge_hunks lines) = extract_from (suc (length lines)) [] lines []

-- Whether the changes touch the same place of the reference, which they do from `l_start` up to
-- `l_end` and from `r_start` up to `r_end`. Ranges that are empty are places of insertion.
unfoldable pub overlaps : ℕ → ℕ → ℕ → ℕ → Bool
overlaps l_start l_end r_start r_end =
    if (l_start == l_end) && (r_start == r_end)
    then l_start == r_start
    else if l_start == l_end
    then leb r_start l_start && ltb l_start r_end
    else if r_start == r_end
    then leb l_start r_start && ltb r_start l_end
    else ltb l_start r_end && ltb r_start l_end

abbrev pub change_end : ℕ × ChangeInfo → ℕ
change_end (start, info) = start + info.ref_line_count

unfoldable pub clash : ℕ × ChangeInfo → ℕ × ChangeInfo → Bool
unfolding overlaps
clash l r =
    overlaps l.0 (change_end l) r.0 (change_end r) && not (l.1.replacement == r.1.replacement)

abbrev pub overlap_of : ℕ × ChangeInfo → ℕ × ChangeInfo → Overlap
overlap_of l r = record {
  ref_range = record { start = min l.0 r.0; end = max (change_end l) (change_end r) };
  left_file_lines = l.1.file_lines;
  right_file_lines = r.1.file_lines;
}

-- The inner loop, and the outer one.
unfoldable pub clashes_with : ℕ × ChangeInfo → Changes → List Overlap
unfolding clash
clashes_with l [] = []
clashes_with l (r ∷ rs) =
    let rest = clashes_with l rs in if clash l r then overlap_of l r ∷ rest else rest

unfoldable pub find_clashes : Changes → Changes → List Overlap
unfolding clashes_with
find_clashes [] rights = []
find_clashes (l ∷ ls) rights = clashes_with l rights ++ find_clashes ls rights

-- `sort_by_key` is stable: an item goes in front of those with the same start.
unfoldable pub sort_in : Overlap → List Overlap → List Overlap
sort_in o [] = o ∷ []
sort_in o (p ∷ ps) =
    let rest = sort_in o ps in
    if leb o.ref_range.start p.ref_range.start then o ∷ p ∷ ps else p ∷ rest

unfoldable pub sort_by_start : List Overlap → List Overlap
unfolding sort_in
sort_by_start [] = []
sort_by_start (o ∷ os) = sort_in o (sort_by_start os)

unfoldable pub joined : Overlap → Overlap → Overlap
unfolding set_extend
joined last region = record {
  ref_range = record {
    start = last.ref_range.start;
    end = max last.ref_range.end region.ref_range.end;
  };
  left_file_lines = set_extend last.left_file_lines region.left_file_lines;
  right_file_lines = set_extend last.right_file_lines region.right_file_lines;
}

-- The loop, with the last of the regions merged so far.
unfoldable pub merge_from : Overlap → List Overlap → List Overlap
unfolding joined
merge_from last [] = last ∷ []
merge_from last (region ∷ regions) =
    let merged = merge_from (joined last region) regions in
    let apart = last ∷ merge_from region regions in
    if ltb region.ref_range.start last.ref_range.end then merged else apart

unfoldable pub merge_sorted : List Overlap → List Overlap
unfolding merge_from
merge_sorted [] = []
merge_sorted (o ∷ os) = merge_from o os

unfoldable pub merge_overlapping_regions : List Overlap → List Overlap
unfolding sort_by_start merge_sorted
merge_overlapping_regions regions = merge_sorted (sort_by_start regions)

-- `iter().copied().zip(&replacement)`
unfoldable pub zip_lines : List ℕ → List Bytes → List (ℕ × Bytes)
zip_lines [] values = []
zip_lines (k ∷ ks) [] = []
zip_lines (k ∷ ks) (v ∷ vs) = (k, v) ∷ zip_lines ks vs

unfoldable pub replacement_lines_by_index : Changes → List (ℕ × Bytes)
unfolding zip_lines
replacement_lines_by_index [] = []
replacement_lines_by_index ((k, info) ∷ rest) =
    zip_lines info.file_lines info.replacement ++ replacement_lines_by_index rest

-- The value that a map collected from the pairs has for the index: the last one wins.
unfoldable pub value_at : ℕ → List (ℕ × Bytes) → Option Bytes
value_at index [] = none
value_at index ((j, value) ∷ rest) = elim (value_at index rest) [
  | some later ↦ some later
  | none ↦ if index == j then some value else none
]

abbrev pub cons? : Option Bytes → Option (List Bytes) → Option (List Bytes)
cons? (some v) (some vs) = some (trim_end b'\n' v ∷ vs)
cons? _ _ = none

-- `lines[index]` for each index, a panic where one is missing.
unfoldable pub lines_at : List (ℕ × Bytes) → List ℕ → Option (List Bytes)
unfolding value_at
lines_at values [] = some []
lines_at values (k ∷ ks) = cons? (value_at k values) (lines_at values ks)

abbrev pub region? : Range → Option (List Bytes) → Option (List Bytes) → Option ConflictRegion
region? range (some left_lines) (some right_lines) =
    some (record { ref_range = range; left_lines = left_lines; right_lines = right_lines })
region? range _ _ = none

unfoldable pub region_of : List (ℕ × Bytes) → List (ℕ × Bytes) → Overlap → Option ConflictRegion
unfolding lines_at
region_of lefts rights overlap =
    region? overlap.ref_range (lines_at lefts overlap.left_file_lines)
      (lines_at rights overlap.right_file_lines)

abbrev pub cons_region? :
    Option ConflictRegion → Option (List ConflictRegion) → Option (List ConflictRegion)
cons_region? (some r) (some rs) = some (r ∷ rs)
cons_region? _ _ = none

unfoldable pub regions_of :
    List (ℕ × Bytes) → List (ℕ × Bytes) → List Overlap → Option (List ConflictRegion)
unfolding region_of
regions_of lefts rights [] = some []
regions_of lefts rights (o ∷ os) =
    cons_region? (region_of lefts rights o) (regions_of lefts rights os)

-- The conflicts of two sets of changes to one reference.
unfoldable pub conflicts_of : Changes → Changes → Option (List ConflictRegion)
unfolding find_clashes merge_overlapping_regions regions_of replacement_lines_by_index
conflicts_of lefts rights =
    regions_of (replacement_lines_by_index lefts) (replacement_lines_by_index rights)
      (merge_overlapping_regions (find_clashes lefts rights))

-- The regions of `ConflictInfo`, or `none` for a panic. `similar` is the differ of the crate.
unfoldable pub text_conflicts :
    (Bytes → Bytes → List Change) → (reference left right : Text) → Option (List ConflictRegion)
unfolding extract_changes conflicts_of build_script
text_conflicts similar reference left right =
    elim (extract_changes (build_script similar reference.decoded left.decoded)) [
      | none ↦ none
      | some lefts ↦ elim (extract_changes (build_script similar reference.decoded right.decoded)) [
        | none ↦ none
        | some rights ↦ conflicts_of lefts rights
      ]
    ]
