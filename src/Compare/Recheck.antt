-- ===== src/Compare/Recheck.antt =====
-- The check just before a change that its destination is as it was compared (compare/recheck.rs).
pub mod Checks
use remote_merge.Prelude.{
  ℕ, String, [], ◌∷◌, Option, none, some, Result, ok, err, Eq, ◌==◌, string_eq, list_eq, nat_eq,
  if◌then◌else◌,
}
use remote_merge.OpFailure.{OpFailure, not_found}
use remote_merge.Text.{Bytes}
use remote_merge.Scan.{ListedKind}
use remote_merge.Compare.Verdict.{SideFailure, Undecidable}
use remote_merge.Compare.Contents.{ReadOutcome, read_outcome}

-- The state of the destination, a regular file by its hash.
pub data Observed : Type 0 where
  absent : Observed
  file : String → Observed
  directory : Observed
  symlink : Bytes → Observed
  other : Observed

string_dec : Discrete String
string_dec = string_eq.dec

bytes_dec : Discrete Bytes
bytes_dec = (list_eq {A = ℕ}).dec

Observed-discrete : Discrete Observed
Observed-discrete = hlevel (string_dec, bytes_dec)

instance unfoldable pub observed_eq : Eq Observed
unfolding Observed-discrete string_dec bytes_dec
observed_eq = record { dec = Observed-discrete }

-- What a fresh listing of the path decides. A regular file waits for its hash.
pub data Relisted : Type 0 where
  decided : Observed → Relisted
  file : Relisted

unfoldable pub relisted : Option ListedKind → Relisted
relisted none = decided absent
relisted (some ListedKind.other) = decided other
relisted (some ListedKind.directory) = decided directory
relisted (some (ListedKind.symlink target _)) = decided (symlink target)
relisted (some ListedKind.file) = Relisted.file

pub data ChangeCheck : Type 0 where
  unchanged : ChangeCheck
  changed : ChangeCheck
  undecidable : Undecidable → ChangeCheck

check_outcome : ReadOutcome → Result SideFailure ChangeCheck
check_outcome (ReadOutcome.stopped failed) = err failed
check_outcome (ReadOutcome.undecidable why) = ok (undecidable why)
check_outcome ReadOutcome.read = ok changed

-- A file that the listing showed and whose hash then was not found has gone since.
check_failure : SideFailure → OpFailure → Result SideFailure ChangeCheck
unfolding check_outcome
check_failure failed not_found = ok changed
check_failure failed _ = check_outcome (read_outcome (failed ∷ []))

unfoldable pub check_before_change :
    Observed → Result SideFailure Observed → Result SideFailure ChangeCheck
unfolding check_failure
check_before_change compared (ok now) = ok (if now == compared then unchanged else changed)
check_before_change compared (err failed) = check_failure failed failed.failure
