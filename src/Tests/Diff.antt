-- ===== src/Tests/Diff.antt =====
-- The merge by hunks on texts of two lines.
use remote_merge.Prelude.{
  nat_eq, list_eq, nat_eq, zero, suc, true, List, [], ◌∷◌, ◌++◌, some, any, All, length, ◌≡◌, refl,
  arith,
}
use remote_merge.Text.{Bytes}
use remote_merge.Content.Interpreted.{WellFormed}
use remote_merge.Content.{Text, utf8, line_ranges, bom, raw_line}
use remote_merge.Diff.Script.{left_to_right, equal, delete, insert, DiffLine, Change, number_lines}
use remote_merge.Diff.Hunks.{
  DiffHunk, DiffResult, change_indices, build_hunks, hunk_count, contains,
}
use remote_merge.Diff.Hunks.Cover.{covered, near, build_hunks-covered}
use remote_merge.Diff.Hunks.Bounds.{Apart, StartsRight, build_hunks-Apart}
use remote_merge.Diff.Hunks.Nested.{build_hunks-Shown}
use remote_merge.Diff.Apply.{apply}
use remote_merge.Diff.Apply.Numbered.{SameBytes}
use remote_merge.Diff.Apply.Selection.{SelectsAll}
use remote_merge.Diff.Apply.Whole.{Fits, script, apply-nothing, apply-everything}

abbrev pub line_a : Bytes
line_a = b'a' ∷ b'\n' ∷ []

abbrev pub line_b : Bytes
line_b = b'b' ∷ b'\n' ∷ []

abbrev pub line_c : Bytes
line_c = b'c' ∷ b'\n' ∷ []

abbrev pub text_of_lines : Bytes → Text
text_of_lines raw = record {
  raw = raw;
  decoded = raw;
  encoding = utf8;
  bom_len = 0;
  raw_lines = line_ranges raw 0;
}

abbrev pub old_text : Text
old_text = text_of_lines (line_a ++ line_b)

abbrev pub new_text : Text
new_text = text_of_lines (line_a ++ line_c)

-- The differ of these tests: it keeps line a, deletes line b and inserts line c.
abbrev pub b_to_c : Bytes → Bytes → List Change
b_to_c _ _ =
    record { tag = equal; value = line_a }
    ∷ record { tag = delete; value = line_b }
    ∷ record { tag = insert; value = line_c }
    ∷ []

abbrev b_to_c_lines : List DiffLine
b_to_c_lines = number_lines (b_to_c [] []) 0 0

build_hunks-covered_example :
    covered (build_hunks b_to_c_lines 1) 0
    ≡ any (near (length b_to_c_lines) 1 0) (change_indices b_to_c_lines 0)
build_hunks-covered_example = build_hunks-covered b_to_c_lines 1 0

build_hunks-Apart_example :
    Apart 0 (build_hunks b_to_c_lines 1) (length b_to_c_lines)
    × All (StartsRight b_to_c_lines) (build_hunks b_to_c_lines 1)
build_hunks-Apart_example = build_hunks-Apart b_to_c_lines 1

build_hunks-Shown_example :
    All
      (λ (merge : DiffHunk).
        any (λ (display : DiffHunk). contains display merge) (build_hunks b_to_c_lines 3) ≡ true)
      (build_hunks b_to_c_lines 0)
build_hunks-Shown_example = build_hunks-Shown b_to_c_lines 3

old_WellFormed : WellFormed old_text
old_WellFormed = record { bom_inside = omega arith; lines_of_raw = refl }

new_WellFormed : WellFormed new_text
new_WellFormed = record { bom_inside = omega arith; lines_of_raw = refl }

b_to_c-Fits : Fits old_text new_text (b_to_c [] [])
unfolding line_ranges nat_eq
b_to_c-Fits = record { old_lines = refl; new_lines = refl }

b_to_c-SameBytes : SameBytes old_text new_text (b_to_c [] []) 0 0
unfolding line_ranges raw_line nat_eq
b_to_c-SameBytes = (λ h. refl, (λ h. absurd (ground arith), (λ h. absurd (ground arith), tt)))

one_hunk : hunk_count (script b_to_c old_text new_text) ≡ some 1
unfolding build_hunks hunk_count number_lines remote_merge.Diff.Hunks.build_script list_eq nat_eq
one_hunk = refl

first_selected : SelectsAll (0 ∷ []) 1
unfolding nat_eq
first_selected zero h = refl
first_selected (suc k) h = absurd (omega arith)

apply-nothing_example :
    apply old_text new_text (script b_to_c old_text new_text) [] left_to_right
    ≡ some (line_a ++ line_c)
unfolding remote_merge.Diff.Apply.target
apply-nothing_example =
    apply-nothing b_to_c old_text new_text left_to_right old_WellFormed new_WellFormed b_to_c-Fits

apply-everything_example :
    apply old_text new_text (script b_to_c old_text new_text) (0 ∷ []) left_to_right
    ≡ some (line_a ++ line_b)
unfolding bom remote_merge.Diff.Apply.target
apply-everything_example =
    apply-everything b_to_c old_text new_text left_to_right (0 ∷ []) 1 old_WellFormed new_WellFormed
      b_to_c-Fits b_to_c-SameBytes one_hunk first_selected
