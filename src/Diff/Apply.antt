-- ===== src/Diff/Apply.antt =====
-- Merging chosen hunks (diff/engine.rs, `selected_lines`, `apply` and `apply_merge_hunks`).
pub mod Numbered
pub mod Selection
pub mod Whole
use remote_merge.Prelude.{
  ℕ, suc, zero, Bool, true, false, not, ◌&&◌, List, [], ◌∷◌, ◌++◌, Option, none, some,
  if◌then◌else◌, leb, ltb, get_elem?, any,
}
use remote_merge.Text.{Bytes}
use remote_merge.Content.{Text, raw_line, bom}
use remote_merge.Diff.Script.{
  HunkDirection, left_to_right, right_to_left, DiffTag, equal, delete, insert, DiffLine, Change,
}
use remote_merge.Diff.Hunks.{
  DiffHunk, DiffResult, same, modified, build_script, merge_hunks_in_display_hunks,
}

in_hunk : Option DiffHunk → ℕ → Bool
in_hunk none index = false
in_hunk (some hunk) index = leb hunk.start index && ltb index hunk.end

-- `selected_indices.contains(&index)`
unfoldable pub in_selected : List DiffHunk → List ℕ → ℕ → Bool
unfolding in_hunk
in_selected hunks selected index = any (λ number. in_hunk (get_elem? hunks number) index) selected

takes_old : HunkDirection → Bool → Bool
takes_old left_to_right chosen = chosen
takes_old right_to_left chosen = not chosen

-- Whether the line is kept, and if so whether from the old text.
unfoldable pub kept : HunkDirection → Bool → DiffTag → Option Bool
unfolding takes_old
kept left_to_right chosen equal = some false
kept right_to_left chosen equal = some true
kept direction chosen delete = if takes_old direction chosen then some true else none
kept direction chosen insert = if takes_old direction chosen then none else some false

cons_kept : DiffLine → Option Bool → List (DiffLine × Bool) → List (DiffLine × Bool)
cons_kept line none rest = rest
cons_kept line (some old) rest = (line, old) ∷ rest

-- The lines kept, the first line standing at `i`, with `chosen` the test on their positions.
unfoldable pub selected_lines :
    HunkDirection → (ℕ → Bool) → ℕ → List DiffLine → List (DiffLine × Bool)
unfolding kept cons_kept
selected_lines direction chosen i [] = []
selected_lines direction chosen i (line ∷ lines) =
    cons_kept line (kept direction (chosen i) line.tag)
      (selected_lines direction chosen (suc i) lines)

-- `none` is a panic: a line without its number, or a number out of range.
raw_at : Text → Option ℕ → Option Bytes
unfolding raw_line
raw_at t none = none
raw_at t (some index) = raw_line t index

append? : Option Bytes → Option Bytes → Option Bytes
append? (some front) (some back) = some (front ++ back)
append? _ _ = none

raw_of : Text → Text → DiffLine → Bool → Option Bytes
unfolding raw_at
raw_of old new line true = raw_at old line.old_index
raw_of old new line false = raw_at new line.new_index

unfoldable pub concat_selected : Text → Text → List (DiffLine × Bool) → Option Bytes
unfolding raw_of append?
concat_selected old new [] = some []
concat_selected old new ((line, from_old) ∷ rest) =
    append? (raw_of old new line from_old) (concat_selected old new rest)

unfoldable pub target : HunkDirection → Text → Text → Text
target left_to_right old new = new
target right_to_left old new = old

unfoldable pub apply_merge_hunks : Text → Text → DiffResult → List ℕ → HunkDirection → Option Bytes
unfolding target selected_lines in_selected concat_selected append?
apply_merge_hunks old new same chosen direction = some (target direction old new).raw
apply_merge_hunks old new (modified hunks merge_hunks lines) chosen direction =
    append? (some (bom (target direction old new)))
      (concat_selected old new (selected_lines direction (in_selected merge_hunks chosen) 0 lines))

chosen_hunks : DiffResult → List ℕ → List ℕ
unfolding merge_hunks_in_display_hunks
chosen_hunks same selected = []
chosen_hunks (modified hunks merge_hunks lines) selected =
    merge_hunks_in_display_hunks hunks merge_hunks selected

-- `PairScript::apply`
unfoldable pub apply : Text → Text → DiffResult → List ℕ → HunkDirection → Option Bytes
unfolding apply_merge_hunks chosen_hunks
apply old new full selected direction =
    apply_merge_hunks old new full (chosen_hunks full selected) direction
