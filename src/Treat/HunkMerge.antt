-- ===== src/Treat/HunkMerge.antt =====
-- The merge of chosen hunks of one path (crates/remote-merge-engine/src/treat/hunk_merge.rs).
pub mod Guarded
use remote_merge.Prelude.{
  ℕ, Bool, true, false, not, ◌&&◌, ◌||◌, List, [], ◌∷◌, ◌++◌, Option, none, some, Result, ok, err,
  leb, if◌then◌else◌,
}
use remote_merge.Text.{Bytes, is_empty}
use remote_merge.Content.{Encoding, utf8, euc_jp, shift_jis, Text, bom}
use remote_merge.Diff.Script.{Change, left_to_right}
use remote_merge.Diff.Hunks.{build_script, hunk_count}
use remote_merge.Diff.Apply.{apply}
use remote_merge.Treat.Content.{
  Prepared, absent, non_file, unavailable, binary, text, ReadProblem, View, ConflictArea,
  text_or_empty, conflicts,
}

-- The reasons of `HunkError::Invalid` are data in place of their wording.
pub data HunkError : Type 0 where
  binary_side not_regular conflict encodings_differ reference_incomplete : HunkError
  out_of_range : (index total : ℕ) → HunkError
  invalid invalid_reference : ReadProblem → HunkError

-- The content and the number of hunks, none where the texts are the same.
abbrev pub Merged : Type 0
Merged = Result HunkError (Option (Bytes × ℕ))

abbrev is_binary : Prepared → Bool
is_binary (binary bytes) = true
is_binary _ = false

abbrev no_regular : Prepared → Bool
no_regular non_file = true
no_regular unavailable = true
no_regular _ = false

abbrev pub is_absent : Prepared → Bool
is_absent absent = true
is_absent _ = false

abbrev is_unavailable : Result ReadProblem Prepared → Bool
is_unavailable (ok unavailable) = true
is_unavailable _ = false

same_encoding : Encoding → Encoding → Bool
same_encoding utf8 utf8 = true
same_encoding euc_jp euc_jp = true
same_encoding shift_jis shift_jis = true
same_encoding _ _ = false

-- `selected.iter().find(|index| **index >= total)`
unfoldable pub beyond : ℕ → List ℕ → Option ℕ
beyond total [] = none
beyond total (i ∷ is) = elim (leb total i) [ true ↦ some i | false ↦ beyond total is ]

abbrev pub with_bom : Bool → Text → Bytes → Bytes
with_bom true t content = bom t ++ content
with_bom false t content = content

module _ (similar : Bytes → Bytes → List Change) where
  -- Every value is none for a panic.
  unfoldable pub merge_texts : Text → Text → Bool → List ℕ → Option Merged
  unfolding beyond
  merge_texts left_text right_text into_new selected =
      let script = build_script similar left_text.decoded right_text.decoded in
      elim (hunk_count script) [
        | none ↦ some (ok none)
        | some total ↦ elim (beyond total selected) [
          | some index ↦ some (err (out_of_range index total))
          | none ↦ elim (apply left_text right_text script selected left_to_right) [
            | none ↦ none
            | some content ↦ some (ok (some (with_bom into_new left_text content, total)))
          ]
        ]
      ]

  merge_checked : View → Prepared → Prepared → Text → Text → List ℕ → Bool → Option Merged
  unfolding same_encoding
  merge_checked view left right left_text right_text selected reference =
      if not (is_absent left)
        && (not (is_absent right) && not (same_encoding left_text.encoding right_text.encoding))
      then some (err encodings_differ)
      else if reference && is_unavailable view.reference
      then some (err reference_incomplete)
      else elim reference [
        | false ↦ merge_texts left_text right_text (is_absent right) selected
        | true ↦ elim (conflicts similar view) [
          | none ↦ none
          | some found ↦ elim (is_empty found) [
            | false ↦ some (err conflict)
            | true ↦ merge_texts left_text right_text (is_absent right) selected
          ]
        ]
      ]

  merge_sides : View → Prepared → Prepared → List ℕ → Bool → Option Merged
  unfolding merge_checked text_or_empty
  merge_sides view left right selected reference = elim (text_or_empty left) [
    | none ↦ some (err not_regular)
    | some left_text ↦ elim (text_or_empty right) [
      | none ↦ some (err not_regular)
      | some right_text ↦ merge_checked view left right left_text right_text selected reference
    ]
  ]

  -- The error of the reference, where it is read.
  reference_problem : View → Bool → Option ReadProblem
  reference_problem view false = none
  reference_problem view true = elim view.reference [ err why ↦ some why | ok _ ↦ none ]

  unfoldable pub merge_prepared : View → List ℕ → Bool → Option Merged
  unfolding merge_sides reference_problem
  merge_prepared view selected reference = elim view.left [
    | err why ↦ some (err (invalid why))
    | ok left ↦ elim view.right [
      | err why ↦ some (err (invalid why))
      | ok right ↦
          if is_binary left || is_binary right
          then some (err binary_side)
          else if no_regular left || no_regular right
          then some (err not_regular)
          else elim (reference_problem view reference) [
            | some why ↦ some (err (invalid_reference why))
            | none ↦ merge_sides view left right selected reference
          ]
    ]
  ]
