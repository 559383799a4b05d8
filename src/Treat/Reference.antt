-- ===== src/Treat/Reference.antt =====
-- The check of a merge against the reference (treat/merge_reference.rs).
pub mod Unmoved
use remote_merge.Prelude.{
  String, Bool, true, false, not, ◌&&◌, List, [], ◌∷◌, Option, none, some, Result, ok, err, Eq,
  ◌==◌, list_eq, nat_eq, string_eq, if◌then◌else◌,
}
use remote_merge.Text.{Bytes}
use remote_merge.OpFailure.{OpFailure}
use remote_merge.Compare.State.{SideState}
use remote_merge.Compare.Verdict.{
  Role, left, right, ref, Undecidable, read_failed, Verdict, undecidable, same,
}
use remote_merge.Compare.Wording.{undecidable_text}
use remote_merge.Compare.Settle.{PairVerdict}
use remote_merge.Compare.Comparison.{PathComparison, pair}
use remote_merge.Treat.Merge.{Kind, kind_of}
use remote_merge.Treat.Status.{present}

pub data ReferenceFailure : Type 0 where
  destination_changed conflict not_in_reference incomplete : ReferenceFailure
  undecided : String → ReferenceFailure

pub data ReferenceCheck : Type 0 where
  write : ReferenceCheck
  fail : ReferenceFailure → ReferenceCheck

-- `by_verdict`
is_same_verdict : Option PairVerdict → Bool
is_same_verdict none = false
is_same_verdict (some judged) = elim judged.verdict [ same ↦ true | _ ↦ false ]

unfoldable pub by_verdict : PathComparison → Role → Bool
unfolding is_same_verdict
by_verdict comparison role = is_same_verdict (pair comparison role ref)

-- Two files: by their hashes, and by the verdict where one was not taken.
unfoldable pub same_hashes :
    Option (Result OpFailure String) → Option (Result OpFailure String) → Bool → Option Bool
same_hashes (some (ok hash)) (some (ok reference)) by_verdict = some (hash == reference)
same_hashes (some (err _)) _ by_verdict = none
same_hashes _ (some (err _)) by_verdict = none
same_hashes _ _ by_verdict = some by_verdict

unfoldable pub same_states :
    PathComparison → Role → Option SideState → Option SideState → Option Bool
unfolding same_hashes by_verdict
same_states c role (some (SideState.file _ _)) (some (SideState.file _ _)) =
    same_hashes (c.hashes role) (c.hashes ref) (by_verdict c role)
same_states c role (some (SideState.symlink target _)) (some (SideState.symlink reference _)) =
    some (target == reference)
same_states c role _ _ = some (by_verdict c role)

unfoldable pub same_as_reference : PathComparison → Role → Option Bool
unfolding same_states
same_as_reference c role = same_states c role (c.states.states role) (c.states.states ref)

Kind-discrete : Discrete Kind
Kind-discrete = hlevel

instance unfoldable pub kind_eq : Eq Kind
unfolding Kind-discrete
kind_eq = record { dec = Kind-discrete }

-- A kind that is compared with others: the item is there, and no other kind of file.
real_kind : Option SideState → Option Kind
unfolding kind_of
real_kind none = none
real_kind (some state) = elim (kind_of state) [ Kind.other ↦ none | kind ↦ some kind ]

-- Only the reference is of another kind.
odd_reference : Option Kind → Option Kind → Option Kind → Bool
odd_reference (some source) (some destination) (some reference) =
    destination == source && not (reference == source)
odd_reference _ _ _ = false

-- The loop over the verdicts of the three pairs: the first that stops the merge.
unfoldable pub verdicts_then : List (Option PairVerdict) → ReferenceCheck → ReferenceCheck
unfolding undecidable_text
verdicts_then [] otherwise = otherwise
verdicts_then (none ∷ verdicts) otherwise = fail incomplete
verdicts_then (some judged ∷ verdicts) otherwise =
    let rest = verdicts_then verdicts otherwise in
    elim judged.verdict [
      | undecidable (read_failed _) ↦ fail incomplete
      | undecidable why ↦ fail (undecided (undecidable_text why))
      | _ ↦ rest
    ]

-- From whether the source and the destination are the same as the reference.
unfoldable pub by_changes : Option Bool → Option Bool → ReferenceCheck
by_changes none _ = fail incomplete
by_changes _ none = fail incomplete
by_changes _ (some true) = write
by_changes (some true) (some false) = fail destination_changed
by_changes (some false) (some false) = fail conflict

both_present : PathComparison → ReferenceCheck
unfolding odd_reference real_kind verdicts_then by_changes
both_present c =
    if odd_reference (real_kind (c.states.states left)) (real_kind (c.states.states right))
      (real_kind (c.states.states ref))
    then fail conflict
    else verdicts_then (pair c left right ∷ pair c left ref ∷ pair c right ref ∷ [])
        (by_changes (same_as_reference c left) (same_as_reference c right))

unfoldable pub reference_check : PathComparison → ReferenceCheck
unfolding both_present
reference_check c =
    if present c right
    then (if present c ref then both_present c else fail not_in_reference)
    else (if present c ref then fail destination_changed else write)
