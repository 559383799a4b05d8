-- ===== src/Treat/MergePlan/Passed.antt =====
-- A change that stands in the plan is the one that was asked for, and has passed the checks.
use remote_merge.Prelude.{
  String, Bool, true, false, List, [], ◌∷◌, Option, none, some, Result, ok, err, ◌≡◌, ◌≢◌, refl,
  sym, arith, Bool-cases, inl, inr,
}
use remote_merge.OpFailure.{OpFailure}
use remote_merge.Compare.Verdict.{left, right, SideFailure}
use remote_merge.Compare.Contents.{ReadOutcome, read_outcome}
use remote_merge.Compare.Comparison.{PathComparison, pair}
use remote_merge.Treat.Merge.{MergeEntry, write_file, write_link, delete, fail}
use remote_merge.Treat.Reference.{ReferenceCheck, reference_check}
use remote_merge.Treat.MergePlan.{
  PlanOptions, destination_link_unverifiable, source_link_is_utf8, failed_sides, failed_entry,
  unless_stopped, with_destination_read_failure, checked, listed_entry, unread_destination,
}

-- The entry writes or deletes.
abbrev pub is_change : MergeEntry → Bool
is_change entry = elim entry [ write_file ↦ true | write_link ↦ true | delete ↦ true | _ ↦ false ]

-- A change that is listed is the one that was asked for.
module _ (c : PathComparison) (options : PlanOptions) where
  checked-change :
      (asked entry : MergeEntry) (with_reference : Bool)
      → checked asked c with_reference ≡ entry
      → is_change entry ≡ true
      → (asked ≡ entry) × (with_reference ≡ true → reference_check c ≡ ReferenceCheck.write)
  unfolding checked
  checked-change asked entry false h k = (h, λ e. absurd (ground arith))
  checked-change asked entry true h k = by_check (reference_check c) refl
    where
      by_check :
          (r : ReferenceCheck)
          → reference_check c ≡ r
          → (asked ≡ entry) × (Path Bool true true → reference_check c ≡ ReferenceCheck.write)
      by_check ReferenceCheck.write e = (ground arith, λ _. e)
      by_check (ReferenceCheck.fail failure) e = absurd (ground arith)

  -- What the last checks leave of a change.
  pub record Passed (asked entry : MergeEntry) : Type 0 where
    pub same : asked ≡ entry
    pub links :
        entry ≡ write_link
        → (source_link_is_utf8 c ≡ true) × (destination_link_unverifiable c ≡ false)
    pub reference :
        options.reference_check ≡ true → entry ≢ delete → reference_check c ≡ ReferenceCheck.write

  pub listed-change :
      (asked entry : MergeEntry)
      → listed_entry asked c options ≡ some entry
      → is_change entry ≡ true
      → Passed asked entry
  unfolding listed_entry
  listed-change write_file entry h k =
      let (same, reference) =
        checked-change write_file entry options.reference_check (ground arith) k in
      record {
        same = same;
        links = λ e. absurd (ground arith);
        reference = λ on not_delete. reference on;
      }
  listed-change write_link entry h k = elim (Bool-cases (destination_link_unverifiable c)) [
    | inl bad ↦ absurd (ground arith)
    | inr destination ↦ elim (Bool-cases (source_link_is_utf8 c)) [
      | inr bad ↦ absurd (ground arith)
      | inl source ↦
          let (same, reference) =
            checked-change write_link entry options.reference_check (ground arith) k in
          record {
            same = same;
            links = λ e. (source, destination);
            reference = λ on not_delete. reference on;
          }
    ]
  ]
  listed-change delete entry h k =
      let same : delete ≡ entry = ground arith in
      record {
        same = same;
        links = λ e. absurd (ground arith);
        reference = λ on not_delete. absurd (not_delete (sym same));
      }
  listed-change asked entry h k = absurd (ground arith)

  failed_entry-change :
      (asked entry : MergeEntry) (sides : List SideFailure) (failed : SideFailure)
      → failed_entry asked sides failed ≡ entry
      → is_change entry ≡ true
      → ⊥
  unfolding failed_entry unread_destination
  failed_entry-change (fail why) entry [] failed h k = ground arith
  failed_entry-change (fail why) entry (s ∷ ss) failed h k = ground arith
  failed_entry-change asked entry sides failed h k = ground arith

  -- The destination was read, or the failure is one that the steps of the change deal with.
  abbrev pub ReadOrLost : Type 0
  ReadOrLost =
      (failure : OpFailure)
      → c.hashes right ≡ some (err failure)
      → (lost : SideFailure) × (read_outcome (record { role = right; failure = failure } ∷ [])
          ≡ ReadOutcome.stopped lost)

  pub unread-change :
      (asked entry : MergeEntry)
      → with_destination_read_failure asked c ≡ entry
      → is_change entry ≡ true
      → (asked ≡ entry) × ReadOrLost
  unfolding with_destination_read_failure unless_stopped
  unread-change asked entry h k = by_hash (c.hashes right) refl
    where
      by_outcome :
          (failure : OpFailure) (r : ReadOutcome)
          → c.hashes right ≡ some (err failure)
          → read_outcome (record { role = right; failure = failure } ∷ []) ≡ r
          → (asked ≡ entry) × ReadOrLost
      by_outcome failure (ReadOutcome.stopped lost) e r = (
        ground arith,
        λ other same. let equal : failure ≡ other = ground arith in (lost, rw (← equal) r),
      )
      by_outcome failure ReadOutcome.read e r = absurd (
          failed_entry-change asked entry (failed_sides (pair c left right))
            (record { role = right; failure = failure }) (ground arith) k)
      by_outcome failure (ReadOutcome.undecidable why) e r = absurd (
          failed_entry-change asked entry (failed_sides (pair c left right))
            (record { role = right; failure = failure }) (ground arith) k)

      by_hash :
          (o : Option (Result OpFailure String)) → c.hashes right ≡ o → (asked ≡ entry) × ReadOrLost
      by_hash none e = (ground arith, λ failure f. absurd (ground arith))
      by_hash (some (ok hash)) e = (ground arith, λ failure f. absurd (ground arith))
      by_hash (some (err failure)) e =
          by_outcome failure (read_outcome (record { role = right; failure = failure } ∷ [])) e refl
