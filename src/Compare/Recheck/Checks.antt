-- ===== src/Compare/Recheck/Checks.antt =====
-- When the check before a change lets the change go on.
use remote_merge.Prelude.{Result, ok, err, ◌≡◌, ◌↔◌, arith}
use remote_merge.Compare.Verdict.{SideFailure}
use remote_merge.Compare.Contents.{read_outcome}
use remote_merge.Compare.Recheck.{Observed, unchanged, observed_eq, check_before_change}

-- The change goes on exactly where the destination was read again and is what it was compared as.
pub check_before_change-unchanged_iff :
    (compared : Observed) (now : Result SideFailure Observed)
    → (check_before_change compared now ≡ ok unchanged) ↔ (now ≡ ok compared)
unfolding check_before_change read_outcome
check_before_change-unchanged_iff compared (ok now) = (λ h. ground arith, λ h. ground arith)
check_before_change-unchanged_iff compared (err f) =
    (λ h. absurd (ground arith), λ h. absurd (ground arith))
