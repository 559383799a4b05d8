-- ===== src/Tests/Conflict.antt =====
-- Three-way comparisons on a reference of a few lines.
use remote_merge.Prelude.{
  ℕ, ◌++◌, ◌==◌, if◌then◌else◌, List, [], ◌∷◌, some, All, Some, ◌≡◌, refl, nat_eq, list_eq,
}
use remote_merge.Text.{Bytes, trim_end}
use remote_merge.Content.{Text}
use remote_merge.Diff.Script.{equal, delete, insert, Change}
use remote_merge.Diff.Hunks.{build_script}
use remote_merge.Diff.Conflict.{
  ConflictRegion, ChangeInfo, Changes, conflicts_of, extract_changes, text_conflicts,
}
use remote_merge.Diff.Conflict.Clash.{Clash}
use remote_merge.Diff.Conflict.Merged.{Apart}
use remote_merge.Diff.Conflict.Regions.{
  ref_ranges, HoldsClash, conflicts_of-Apart, conflicts_of-founded,
}
use remote_merge.Diff.Conflict.Shown.{ShowsBoth, text_conflicts_complete}
use remote_merge.Diff.Conflict.Total.{text_conflicts_total}
use remote_merge.Tests.Diff.{line_a, line_b, line_c, text_of_lines, old_text, new_text, b_to_c}

abbrev change : Bytes → ChangeInfo
change line = record { replacement = line ∷ []; ref_line_count = 1; file_lines = 0 ∷ [] }

-- The left replaces line 0 by b and the right by c; the left replaces line 4 too.
abbrev lefts : Changes
lefts = (0, change line_b) ∷ (4, record (change line_a) { file_lines = 4 ∷ [] }) ∷ []

abbrev rights : Changes
rights = (0, change line_c) ∷ []

abbrev reported : List ConflictRegion
reported =
    record {
      ref_range = record { start = 0; end = 1 };
      left_lines = (b'b' ∷ []) ∷ [];
      right_lines = (b'c' ∷ []) ∷ [];
    }
    ∷ []

conflicts_of-reported : conflicts_of lefts rights ≡ some reported
unfolding conflicts_of nat_eq list_eq trim_end
conflicts_of-reported = refl

conflicts_of-Apart_example : Apart 0 (ref_ranges reported)
conflicts_of-Apart_example = conflicts_of-Apart lefts rights reported conflicts_of-reported

conflicts_of-founded_example : All (HoldsClash lefts rights) (ref_ranges reported)
conflicts_of-founded_example = conflicts_of-founded lefts rights reported conflicts_of-reported

text_conflicts_total_example :
    (found : List ConflictRegion) × (text_conflicts b_to_c old_text new_text new_text ≡ some found)
text_conflicts_total_example = text_conflicts_total b_to_c old_text new_text new_text

-- Both sides make the same change.
no_conflict : text_conflicts b_to_c old_text new_text new_text ≡ some []
unfolding text_conflicts list_eq nat_eq
no_conflict = refl

-- The reference has lines a, b and c. The left has one line d in their place; the right has e in
-- the place of a and f in the place of c.
abbrev line_d : Bytes
line_d = b'd' ∷ b'\n' ∷ []

abbrev line_e : Bytes
line_e = b'e' ∷ b'\n' ∷ []

abbrev line_f : Bytes
line_f = b'f' ∷ b'\n' ∷ []

abbrev reference_text : Text
reference_text = text_of_lines (line_a ++ line_b ++ line_c)

abbrev left_text : Text
left_text = text_of_lines line_d

abbrev right_text : Text
right_text = text_of_lines (line_e ++ line_b ++ line_f)

abbrev left_script : List Change
left_script =
    record { tag = delete; value = line_a }
    ∷ record { tag = delete; value = line_b }
    ∷ record { tag = delete; value = line_c }
    ∷ record { tag = insert; value = line_d }
    ∷ []

abbrev right_script : List Change
right_script =
    record { tag = delete; value = line_a }
    ∷ record { tag = insert; value = line_e }
    ∷ record { tag = equal; value = line_b }
    ∷ record { tag = delete; value = line_c }
    ∷ record { tag = insert; value = line_f }
    ∷ []

-- The differ of this test.
abbrev either_script : Bytes → Bytes → List Change
either_script old new = if new == line_d then left_script else right_script

abbrev change_to : ℕ → ℕ → Bytes → ChangeInfo
change_to count index line = record {
  replacement = line ∷ [];
  ref_line_count = count;
  file_lines = index ∷ [];
}

abbrev left_changes : Changes
left_changes = (0, change_to 3 0 line_d) ∷ []

abbrev right_changes : Changes
right_changes = (0, change_to 1 0 line_e) ∷ (2, change_to 1 2 line_f) ∷ []

-- The change of the left clashes with both of the right, so that the two regions become one.
abbrev whole_region : List ConflictRegion
whole_region =
    record {
      ref_range = record { start = 0; end = 3 };
      left_lines = (b'd' ∷ []) ∷ [];
      right_lines = (b'e' ∷ []) ∷ (b'f' ∷ []) ∷ [];
    }
    ∷ []

extract_left :
    extract_changes (build_script either_script reference_text.decoded left_text.decoded)
    ≡ some left_changes
unfolding extract_changes build_script list_eq nat_eq
extract_left = refl

extract_right :
    extract_changes (build_script either_script reference_text.decoded right_text.decoded)
    ≡ some right_changes
unfolding extract_changes build_script list_eq nat_eq
extract_right = refl

text_conflicts-whole_region :
    text_conflicts either_script reference_text left_text right_text ≡ some whole_region
unfolding text_conflicts list_eq nat_eq trim_end
text_conflicts-whole_region = refl

text_conflicts_complete_example :
    All (λ l. All (λ r. Clash l r → Some (ShowsBoth l r) whole_region) right_changes) left_changes
text_conflicts_complete_example =
    text_conflicts_complete either_script reference_text left_text right_text left_changes
      right_changes whole_region extract_left extract_right text_conflicts-whole_region
