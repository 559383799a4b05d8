-- ===== src/Compare/Contents/Reading.antt =====
-- What a list of failures to read, and a pair of hashes, decide.
use remote_merge.Prelude.{
  String, Bool, true, false, List, [], ◌∷◌, ◌++◌, Option, none, some, Result, ok, err, string_eq,
  if◌then◌else◌, ◌≡◌, ◌⊎◌, inl, inr, arith,
}
use mathlib.Core.List.{append-nil, append_assoc}
use remote_merge.OpFailure.{OpFailure, disconnected, root_gone}
use remote_merge.Compare.Verdict.{Role, SideFailure}
use remote_merge.Compare.Contents.{
  ContentJudgement, ReadOutcome, outcome_of, read_outcome_from, read_outcome, judge_hashes,
}

-- A failure that ends the work on its side: a lost connection, or a root_dir that has gone.
abbrev pub stops : OpFailure → Bool
stops (disconnected _) = true
stops root_gone = true
stops _ = false

-- The first failure of the list that ends the work on its side.
abbrev pub first_stop : List SideFailure → Option SideFailure
first_stop [] = none
first_stop (f ∷ fs) = if stops f.failure then some f else first_stop fs

-- The outcome, from the first failure that ends the work and all failures.
abbrev pub outcome : Option SideFailure → List SideFailure → ReadOutcome
outcome (some failed) all = ReadOutcome.stopped failed
outcome none all = outcome_of all

read_outcome_from-eq :
    (seen fs : List SideFailure) → read_outcome_from seen fs ≡ outcome (first_stop fs) (seen ++ fs)
unfolding read_outcome_from outcome_of
read_outcome_from-eq seen [] = rw append-nil
read_outcome_from-eq seen (f ∷ fs) =
    ground (arith, read_outcome_from-eq (seen ++ (f ∷ [])) fs, append_assoc seen (f ∷ []) fs)

-- The first failure that ends the work on its side decides, whatever stands around it. Without one
-- the pair is undecidable for all the failures in their order, and read if there is none.
pub read_outcome-eq : (fs : List SideFailure) → read_outcome fs ≡ outcome (first_stop fs) fs
unfolding read_outcome
read_outcome-eq fs = read_outcome_from-eq [] fs

-- The failure of a side, and that it ends the work on that side.
abbrev pub Blames : SideFailure → Role → Result OpFailure String → Type 0
Blames failed role answer =
    (failed.role ≡ role) × (answer ≡ err failed.failure) × (stops failed.failure ≡ true)

-- Two hashes are left unjudged only for a failure of one of the two sides that ends the work on it,
-- and the side and the failure that are reported are those.
pub judge_hashes-stopped :
    (r s : Role) (a b : Result OpFailure String) (failed : SideFailure)
    → judge_hashes r a s b ≡ ContentJudgement.stopped failed
    → Blames failed r a ⊎ Blames failed s b
unfolding judge_hashes
judge_hashes-stopped r s (ok a) (ok b) failed h = absurd (ground arith)
judge_hashes-stopped r s (ok a) (err g) failed h = inr (ground arith)
judge_hashes-stopped r s (err f) (ok b) failed h = inl (ground arith)
judge_hashes-stopped r s (err f) (err g) failed h = ground arith
