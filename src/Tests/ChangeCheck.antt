-- ===== src/Tests/ChangeCheck.antt =====
-- A change of permissions and a write, checked after the connection was lost.
use remote_merge.Prelude.{nat_eq, true, [], ◌∷◌, some, ◌≡◌, ◌≢◌, ◌⊎◌, refl, if◌then◌else◌}
use remote_merge.Text.{Bytes, codes}
use remote_merge.ChangeCheck.{
  content, Change, write, chmod, Observed, mode, done, not_done, undetermined, judge, new_mode,
  resulting,
}
use remote_merge.ChangeCheck.Applied.{applied, forgotten, judge-applied, judge-unchanged}

-- A digest of one byte.
abbrev one_byte : Bytes → Bytes
one_byte _ = 0 ∷ []

-- chmod 0o755 on a directory with setgid.
setgid_kept : applied (chmod 493) (mode 1533 true) ≡ some (mode 1517 true)
unfolding new_mode resulting nat_eq
setgid_kept = refl

judge-applied_example : judge one_byte (chmod 493) (mode 1517 true) ≡ done
judge-applied_example =
    judge-applied one_byte (chmod 493) (mode 1533 true) (mode 1517 true) setgid_kept

abbrev rewrite_a : Change
rewrite_a = write (content (codes "a")) (codes "b")

judge-unchanged_example :
    ((applied rewrite_a (Observed.file (codes "a")) ≡ some (Observed.file (codes "a")))
      × (judge one_byte rewrite_a (Observed.file (codes "a")) ≡ done))
    ⊎ ((applied rewrite_a (Observed.file (codes "a")) ≢ some (Observed.file (codes "a")))
        × (judge one_byte rewrite_a (Observed.file (codes "a"))
            ≡ (if forgotten rewrite_a then undetermined else not_done)))
judge-unchanged_example = judge-unchanged one_byte rewrite_a (Observed.file (codes "a")) refl
