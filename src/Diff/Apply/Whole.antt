-- ===== src/Diff/Apply/Whole.antt =====
-- The extremes of a merge by hunks: nothing chosen, and everything chosen.
use remote_merge.Prelude.{
  ℕ, suc, Bool, true, false, List, [], ◌∷◌, ◌++◌, some, length, take-append-drop, get_elem?, All,
  any, ◌==◌, nat_eq, list_eq, ◌≡◌, refl, ap, ◌∙◌, ◌⊎◌, inl, inr, Bool-cases, arith,
}
use native.Mathlib.Nat.{zero-add}
use remote_merge.Text.{Bytes}
use remote_merge.Content.Interpreted.{WellFormed}
use remote_merge.Content.{Text, bom}
use remote_merge.Diff.Script.{
  HunkDirection, left_to_right, right_to_left, DiffLine, Change, number_lines,
}
use remote_merge.Diff.Hunks.{
  DiffHunk, positions, DiffResult, same, modified, build_hunks, build_script,
}
use remote_merge.Diff.Hunks.Cover.{changed_at, build_hunks-changed}
use remote_merge.Diff.Apply.{
  selected_lines, append?, concat_selected, in_selected, target, apply, chosen_hunks,
}
use remote_merge.Diff.Hunks.{hunk_count, contains, contains?}
use remote_merge.Diff.Hunks.Nested.{build_hunks-Shown}
use remote_merge.Diff.Apply.Numbered.{
  body, raws_whole, olds, news, SameBytes, keep_new, keep_old, take_old, take_new,
}
use remote_merge.Diff.Apply.Selection.{
  SelectsAll, selected_lines-const, in_selected-all, positions-All, select-any,
}

-- The changes go through exactly the lines of the two texts.
pub record Fits (old new : Text) (cs : List Change) : Type 0 where
  pub old_lines : olds cs ≡ length old.raw_lines
  pub new_lines : news cs ≡ length new.raw_lines

-- The text that the chosen hunks are taken from.
abbrev pub source : HunkDirection → Text → Text → Text
source left_to_right old new = old
source right_to_left old new = new

bom-body : (t : Text) → bom t ++ body t ≡ t.raw
unfolding bom
bom-body t = take-append-drop t.bom_len t.raw

module _ (old new : Text) (cs : List Change) where
  kept_nothing :
      (d : HunkDirection)
      → WellFormed old
      → WellFormed new
      → Fits old new cs
      → concat_selected old new (selected_lines d (λ _. false) 0 (number_lines cs 0 0))
        ≡ some (body (target d old new))
  unfolding target
  kept_nothing left_to_right wo wn f =
      keep_new old new cs 0 0 0 ∙ rw f.new_lines (raws_whole new wn)
  kept_nothing right_to_left wo wn f =
      keep_old old new cs 0 0 0 ∙ rw f.old_lines (raws_whole old wo)

  kept_everything :
      (d : HunkDirection)
      → WellFormed old
      → WellFormed new
      → Fits old new cs
      → SameBytes old new cs 0 0
      → concat_selected old new (selected_lines d (λ _. true) 0 (number_lines cs 0 0))
        ≡ some (body (source d old new))
  kept_everything left_to_right wo wn f s =
      take_old old new cs 0 0 0 s ∙ rw f.old_lines (raws_whole old wo)
  kept_everything right_to_left wo wn f s =
      take_new old new cs 0 0 0 s ∙ rw f.new_lines (raws_whole new wn)

positions-none : {A : Type 0} (i : ℕ) (xs : List A) → positions (λ _. false) i xs ≡ []
unfolding positions
positions-none i [] = refl
positions-none i (x ∷ xs) = positions-none (suc i) xs

module _ (old new : Text) (cs : List Change) where
  -- The script of the changes, where the texts differ.
  lines : List DiffLine
  lines = number_lines cs 0 0

  full : DiffResult
  full = modified (build_hunks lines 3) (build_hunks lines 0) lines

  lines_kept_nothing :
      (d : HunkDirection)
      → WellFormed old
      → WellFormed new
      → Fits old new cs
      → concat_selected old new (selected_lines d (λ _. false) 0 lines)
        ≡ some (body (target d old new))
  unfolding lines
  lines_kept_nothing d wo wn f = kept_nothing old new cs d wo wn f

  lines_kept_everything :
      (d : HunkDirection)
      → WellFormed old
      → WellFormed new
      → Fits old new cs
      → SameBytes old new cs 0 0
      → concat_selected old new (selected_lines d (λ _. true) 0 lines)
        ≡ some (body (source d old new))
  unfolding lines
  lines_kept_everything d wo wn f s = kept_everything old new cs d wo wn f s

  merge_by :
      (d : HunkDirection) (b : Bool) (selected : List ℕ) (whole : Bytes)
      → ((m : ℕ)
          → changed_at lines m ≡ true
          → in_selected (build_hunks lines 0) (chosen_hunks full selected) m ≡ b)
      → concat_selected old new (selected_lines d (λ _. b) 0 lines) ≡ some whole
      → apply old new full selected d ≡ some (bom (target d old new) ++ whole)
  unfolding apply full
  merge_by d b selected whole h e = ap (append? (some (bom (target d old new)))) (
      ap (concat_selected old new) (selected_lines-const d b _ lines 0 (λ m c. rw zero-add (h m c)))
      ∙ e)

  nothing_selected : (m : ℕ) → in_selected (build_hunks lines 0) (chosen_hunks full []) m ≡ false
  unfolding chosen_hunks full in_selected
  nothing_selected m = rw (positions-none 0 (build_hunks lines 0))

  test_passed :
      (selected : List ℕ)
      → SelectsAll selected (length (build_hunks lines 3))
      → (ms : List DiffHunk)
      → All (λ merge. any (λ display. contains display merge) (build_hunks lines 3) ≡ true) ms
      → All
          (λ merge.
            any (λ index. contains? (get_elem? (build_hunks lines 3) index) merge) selected ≡ true)
          ms
  unfolding contains?
  test_passed selected all [] h = tt
  test_passed selected all (m ∷ ms) (h, hs) = (
    select-any _ _ (build_hunks lines 3) selected (λ k x e p. ground arith) all h,
    test_passed selected all ms hs,
  )

  everything_selected :
      (selected : List ℕ)
      → SelectsAll selected (length (build_hunks lines 3))
      → (m : ℕ) → changed_at lines m ≡ true
      → in_selected (build_hunks lines 0) (chosen_hunks full selected) m ≡ true
  unfolding chosen_hunks full
  everything_selected selected all m c =
      in_selected-all (build_hunks lines 0) _ m
        (λ k below. rw zero-add at (
          positions-All _ (build_hunks lines 0) 0 k
            (test_passed selected all (build_hunks lines 0) (build_hunks-Shown lines 3)) below))
        (build_hunks-changed lines m ∙ c)

no_count : (r : DiffResult) (count : ℕ) → r ≡ same → hunk_count r ≡ some count → ⊥
unfolding hunk_count
no_count r count e h = ground arith

full_count :
    (old new : Text) (cs : List Change) (r : DiffResult) (count : ℕ)
    → r ≡ full old new cs
    → hunk_count r ≡ some count
    → length (build_hunks (lines old new cs) 3) ≡ count
unfolding hunk_count full
full_count old new cs r count e h = ground arith

module _ (similar : Bytes → Bytes → List Change) (old new : Text) where
  -- The script of the two texts.
  abbrev pub script : DiffResult
  script = build_script similar old.decoded new.decoded

  abbrev pub changes : List Change
  changes = similar old.decoded new.decoded

  script-cases : (script ≡ same) ⊎ (script ≡ full old new changes)
  unfolding build_script full lines
  script-cases = elim (Bool-cases (old.decoded == new.decoded)) [
    | inl equal_texts ↦ inl (rw equal_texts)
    | inr differ ↦ inr (rw differ)
  ]

  -- Choosing no hunk leaves the destination as it is, byte for byte, in both directions, if the
  -- texts keep the lines of their bytes and the changes go through exactly those lines.
  pub apply-nothing :
      (d : HunkDirection)
      → WellFormed old
      → WellFormed new
      → Fits old new changes
      → apply old new script [] d ≡ some (target d old new).raw
  apply-nothing d wo wn f = elim script-cases [
    | inl e ↦ rw e (unfold apply in refl)
    | inr e ↦ rw e (
        merge_by old new changes d false [] (body (target d old new))
          (λ m c. nothing_selected old new changes m) (lines_kept_nothing old new changes d wo wn f)
        ∙ ap some (bom-body (target d old new)))
  ]

  -- Choosing every hunk that is shown gives the body of the source behind the BOM of the
  -- destination, in both directions, if the texts differ, keep the lines of their bytes and write
  -- equal lines with the same bytes, and the changes go through exactly those lines.
  pub apply-everything :
      (d : HunkDirection) (selected : List ℕ) (count : ℕ)
      → WellFormed old
      → WellFormed new
      → Fits old new changes
      → SameBytes old new changes 0 0
      → hunk_count script ≡ some count
      → SelectsAll selected count
      → apply old new script selected d ≡ some (bom (target d old new) ++ body (source d old new))
  apply-everything d selected count wo wn f s e all = elim script-cases [
    | inl same_texts ↦ absurd (no_count script count same_texts e)
    | inr g ↦ rw g (
        merge_by old new changes d true selected (body (source d old new))
          (everything_selected old new changes selected
            (λ k below. all k (omega (arith, full_count old new changes script count g e))))
          (lines_kept_everything old new changes d wo wn f s))
  ]
