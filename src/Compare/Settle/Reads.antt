-- ===== src/Compare/Settle/Reads.antt =====
-- What the failures to read contents do to the verdicts of the pairs.
use remote_merge.Prelude.{Bool, List, [], ◌∷◌, map, none, ok, filter, ◌≡◌, refl, arith}
use remote_merge.Compare.Verdict.{role_eq, SideFailure, Undecidable, Verdict}
use remote_merge.Compare.Contents.{outcome_of}
use remote_merge.Compare.Contents.Reading.{first_stop, read_outcome-eq}
use remote_merge.Compare.Settle.{PairVerdict, involves, apply_outcome, apply_read, apply_reads}

-- The failures of the two sides of the pair.
abbrev pub relevant : PairVerdict → List SideFailure → List SideFailure
relevant v failures = filter (λ f. involves v.pair f.role) failures

-- The verdict of a pair after contents were read: undecidable for all the failures of its sides,
-- unless there are none or it was undecidable before.
abbrev pub reread : List SideFailure → Verdict → Verdict
reread [] verdict = verdict
reread (f ∷ fs) (Verdict.undecidable why) = Verdict.undecidable why
reread (f ∷ fs) verdict = Verdict.undecidable (Undecidable.read_failed (f ∷ fs))

first_stop-filter :
    (p : SideFailure → Bool) (fs : List SideFailure)
    → first_stop fs ≡ none
    → first_stop (filter p fs) ≡ none
first_stop-filter p [] h = refl
first_stop-filter p (f ∷ fs) h = ground (arith, first_stop-filter p fs)

apply_outcome-reread :
    (fs : List SideFailure) (v : PairVerdict)
    → apply_outcome v (outcome_of fs) ≡ ok (record v { verdict = reread fs v.verdict })
unfolding apply_outcome outcome_of
apply_outcome-reread [] v = refl
apply_outcome-reread (f ∷ fs) v = ground arith

apply_read-eq :
    (failures : List SideFailure)
    → first_stop failures ≡ none
    → (v : PairVerdict)
    → apply_read failures v ≡ ok (record v { verdict = reread (relevant v failures) v.verdict })
unfolding apply_read
apply_read-eq failures h v =
    rw
      (
        read_outcome-eq (relevant v failures),
        first_stop-filter (λ f. involves v.pair f.role) failures h,
      )
      (apply_outcome-reread (relevant v failures) v)

-- Where no failure ends the work on its side, every verdict is kept in its place; a pair that had
-- a verdict becomes undecidable for exactly the failures of its two sides, if there are any.
pub apply_reads-eq :
    (failures : List SideFailure)
    → first_stop failures ≡ none
    → (vs : List PairVerdict)
    → apply_reads vs failures
      ≡ ok (
          map
            (λ (v : PairVerdict). record v { verdict = reread (relevant v failures) v.verdict })
            vs)
unfolding apply_reads
apply_reads-eq failures h [] = refl
apply_reads-eq failures h (v ∷ vs) =
    ground (arith, apply_read-eq failures h v, apply_reads-eq failures h vs)
