-- ===== src/Treat/Status/Counts.antt =====
-- The counts and the exit code of status agree with the files it lists and shows.
use remote_merge.Prelude.{
  ℕ, ◌+◌, Bool, false, not, List, [], ◌∷◌, Option, ◌==◌, any, filter, length, ltb, if◌then◌else◌,
  ◌≡◌, refl, arith,
}
use remote_merge.Text.{is_empty}
use remote_merge.Treat.Merge.{success, diff_found, error}
use remote_merge.Treat.Status.{
  FileStatusKind, FileStatus, file_status_kind_eq, RefCounts, count, summary, is_changed, shown,
  status_exit_code,
}

-- One where the kinds are the same.
unit : FileStatusKind → FileStatusKind → ℕ
unit k wanted = if k == wanted then 1 else 0

count-cons :
    (f : FileStatus) (fs : List FileStatus) (k : FileStatusKind)
    → count (f ∷ fs) k ≡ unit f.status k + count fs k
unfolding count unit
count-cons f fs k = ground arith

one_kind :
    (k : FileStatusKind)
    → unit k FileStatusKind.modified
        + unit k FileStatusKind.left_only
        + unit k FileStatusKind.right_only
        + unit k FileStatusKind.equal
      ≡ 1
unfolding unit file_status_kind_eq
one_kind FileStatusKind.modified = refl
one_kind FileStatusKind.left_only = refl
one_kind FileStatusKind.right_only = refl
one_kind FileStatusKind.equal = refl

kinds_count :
    (files : List FileStatus)
    → count files FileStatusKind.modified
        + count files FileStatusKind.left_only
        + count files FileStatusKind.right_only
        + count files FileStatusKind.equal
      ≡ length files
unfolding count
kinds_count [] = refl
kinds_count (f ∷ fs) = omega (
  arith,
  kinds_count fs,
  count-cons f fs FileStatusKind.modified,
  count-cons f fs FileStatusKind.left_only,
  count-cons f fs FileStatusKind.right_only,
  count-cons f fs FileStatusKind.equal,
  one_kind f.status,
)

-- The four counts of the summary add up to the number of the files listed, whatever the reference.
pub summary_total :
    (files : List FileStatus) (failed : ℕ) (reference : Option RefCounts)
    → let s = summary files failed reference in
      s.modified + s.left_only + s.right_only + s.equal ≡ length files
unfolding summary
summary_total files failed reference = kinds_count files

any-filter :
    (test : FileStatus → Bool) (files : List FileStatus)
    → any test files ≡ not (is_empty (filter test files))
any-filter test [] = refl
any-filter test (f ∷ fs) = ground (arith, any-filter test fs)

-- The exit code is that of an error exactly if some file could not be read; otherwise it says
-- whether there is a file to show when those that are equal are left out.
pub status_exit_code-shown :
    (files : List FileStatus) (failed : ℕ)
    → status_exit_code files failed ≡ (
        if ltb 0 failed
        then error
        else if is_empty (shown files false)
        then success
        else diff_found)
unfolding status_exit_code shown
status_exit_code-shown files failed = ground (arith, any-filter (λ f. is_changed f) files)
