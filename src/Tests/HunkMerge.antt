-- ===== src/Tests/HunkMerge.antt =====
-- The merge of the one hunk of two texts.
use remote_merge.Prelude.{false, [], ◌∷◌, ◌++◌, ok, refl, nat_eq, list_eq}
use remote_merge.Content.{line_ranges, bom}
use remote_merge.Treat.Content.{Prepared, View}
use remote_merge.Diff.Hunks.{hunk_count, build_script}
use remote_merge.Diff.Apply.{apply}
use remote_merge.Treat.HunkMerge.{merge_prepared, merge_texts}
use remote_merge.Treat.HunkMerge.Guarded.{Guarded, merge_prepared-Guarded}
use remote_merge.Tests.Diff.{line_a, line_b, old_text, new_text, b_to_c}

abbrev view : View
view = record {
  left = ok (Prepared.text old_text);
  right = ok (Prepared.text new_text);
  reference = ok Prepared.unavailable;
}

merge_prepared-Guarded_example : Guarded b_to_c view (0 ∷ []) false (line_a ++ line_b) 1
unfolding merge_prepared merge_texts hunk_count build_script apply line_ranges bom nat_eq list_eq
merge_prepared-Guarded_example =
    merge_prepared-Guarded b_to_c view (0 ∷ []) false (line_a ++ line_b) 1 refl
