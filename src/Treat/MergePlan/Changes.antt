-- ===== src/Treat/MergePlan/Changes.antt =====
-- What the plan writes and deletes has been asked for by a comparison, and has passed the checks.
use remote_merge.Prelude.{
  true, false, List, [], ◌∷◌, Option, none, some, err, All, All-every, All-map, Some, ◌≡◌, ◌≢◌,
  refl, arith, Bool-cases, inl, inr,
}
use remote_merge.Text.{Bytes}
use remote_merge.OpFailure.{OpFailure}
use remote_merge.Compare.Verdict.{right, SideFailure}
use remote_merge.Compare.Contents.{ReadOutcome, read_outcome}
use remote_merge.Compare.Comparison.{PathComparison}
use remote_merge.Treat.Merge.{MergeEntry, write_link, delete, skip, merge_entry, is_kind_mismatch}
use remote_merge.Treat.Reference.{ReferenceCheck, reference_check}
use remote_merge.Treat.Scope.{MergeTargets, has_name, selects}
use remote_merge.Treat.MergePlan.{
  PlanOptions, Comparisons, options_of, destination_link_unverifiable, source_link_is_utf8,
  skipped_over_a_directory, with_destination_read_failure, missing, considered, entry_of_path,
  cons_entry, entries, merge_plan,
}
use remote_merge.Treat.MergePlan.Items.{merge_plan-All}
use remote_merge.Treat.MergePlan.Passed.{is_change, listed-change, unread-change}

-- Why the plan may change the path: its comparison asks for the change, the path is one that the
-- command handles, and the checks of the change hold.
pub record Asked (paths : Comparisons) (targets : MergeTargets) (options : PlanOptions)
    (path : Bytes) (entry : MergeEntry) : Type 0 where
  pub comparison : PathComparison
  pub compared : Some (λ item. item ≡ (path, comparison)) paths
  pub selected : selects targets path ≡ true
  pub asked : merge_entry comparison (options_of options) ≡ entry
  pub destination_read :
      (failure : OpFailure)
      → comparison.hashes right ≡ some (err failure)
      → (lost : SideFailure) × (read_outcome (record { role = right; failure = failure } ∷ [])
          ≡ ReadOutcome.stopped lost)
  pub links_kept :
      entry ≡ write_link
      → (source_link_is_utf8 comparison ≡ true) × (destination_link_unverifiable comparison ≡ false)
  pub reference_kept :
      options.reference_check ≡ true
      → entry ≢ delete
      → reference_check comparison ≡ ReferenceCheck.write

module _ (paths : Comparisons) (targets : MergeTargets) (options : PlanOptions) where
  -- A path that is considered only because it lies above a name is skipped, not changed.
  considered-change :
      (path : Bytes) (c : PathComparison) (entry : MergeEntry)
      → merge_entry c (options_of options) ≡ entry
      → is_change entry ≡ true
      → considered paths targets options path c ≡ true
      → selects targets path ≡ true
  unfolding considered skipped_over_a_directory is_kind_mismatch
  considered-change path c (skip reason) e k h = absurd (ground arith)
  considered-change path c entry e k h = ground arith

  AskedItem : Bytes × MergeEntry → Type 0
  AskedItem item = is_change item.1 ≡ true → Asked paths targets options item.0 item.1

  entry_of_path-Asked :
      (path : Bytes) (c : PathComparison) (entry : MergeEntry)
      → Some (λ item. item ≡ (path, c)) paths
      → entry_of_path paths targets options path c ≡ some entry
      → is_change entry ≡ true
      → Asked paths targets options path entry
  unfolding entry_of_path
  entry_of_path-Asked path c entry there h k =
      elim (Bool-cases (has_name (missing paths targets options) path)) [
        | inl gone ↦ absurd (ground arith)
        | inr named ↦ elim (Bool-cases (considered paths targets options path c)) [
          | inr other ↦ absurd (ground arith)
          | inl in_scope ↦
              let asked = merge_entry c (options_of options) in
              let passed =
                listed-change c options (with_destination_read_failure asked c) entry (ground arith)
                  k in
              let (same, read) = unread-change c options asked entry passed.same k in
              record {
                comparison = c;
                compared = there;
                selected = considered-change path c entry same k in_scope;
                asked = same;
                destination_read = read;
                links_kept = passed.links;
                reference_kept = passed.reference;
              }
        ]
      ]

  entries-Asked :
      (rest : Comparisons)
      → All (λ item. Some (λ other. other ≡ item) paths) rest
      → All AskedItem (entries paths targets options rest)
  unfolding entries AskedItem
  entries-Asked [] h = tt
  entries-Asked ((path, c) ∷ rest) (there, h) =
      add (entry_of_path paths targets options path c) refl (entries-Asked rest h)
    where
      add :
          (o : Option MergeEntry)
          → entry_of_path paths targets options path c ≡ o
          → All AskedItem (entries paths targets options rest)
          → All AskedItem
              (cons_entry paths targets options path o (entries paths targets options rest))
      add none e later = later
      add (some entry) e later = (λ k. entry_of_path-Asked path c entry there e k, later)

Some-self : {A : Type 0} (xs : List A) → All (λ x. Some (λ y. y ≡ x) xs) xs
Some-self [] = tt
Some-self (x ∷ xs) = (inl refl, All-map _ _ (λ y there. inr there) xs (Some-self xs))

-- Every path that the plan writes or deletes is one that the command handles; its comparison asks
-- for that very change; no failure to read its destination stands, but one that stops the whole
-- side; where a link is written, its text is UTF-8 and that of a link in its place is plain UTF-8;
-- and where the check of the reference is on, what is written has passed it.
pub merge_plan-Asked :
    (paths : Comparisons) (targets : MergeTargets) (options : PlanOptions)
    → All
        (λ item. is_change item.1 ≡ true → Asked paths targets options item.0 item.1)
        (merge_plan paths targets options)
unfolding AskedItem
merge_plan-Asked paths targets options =
    merge_plan-All (λ item. is_change item.1 ≡ true → Asked paths targets options item.0 item.1)
      paths targets options (entries-Asked paths targets options paths (Some-self paths))
      (All-every _ (λ name k. absurd (ground arith)) (missing paths targets options))
