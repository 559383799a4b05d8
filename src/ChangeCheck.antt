-- ===== src/ChangeCheck.antt =====
-- What became of a change whose answer was lost, from what stands at its destination afterwards
-- (crates/remote-merge-core/src/change_check.rs, machine_ops/mode.rs).
pub mod Applied
use remote_merge.Prelude.{
  ℕ, ◌+◌, ◌*◌, ◌/◌, ◌%◌, Bool, true, false, List, [], ◌∷◌, Option, none, some, Result, ok, err,
  ◌==◌, list_eq, nat_eq, if◌then◌else◌,
}
use remote_merge.Text.{Bytes}
use remote_merge.Scan.{LinkPoint, ListedKind, ListedEntry}
use remote_merge.Sha256.{hex_of_bytes}

-- Bits of permissions, none beyond 0o777.
pub record PermissionMode : Type 0 where
  pub bits : ℕ

pub data ModeTooWide : Type 0 where
  mode_too_wide : ℕ → ModeTooWide

-- `PermissionMode::new`: `mode & !0o777 == 0`.
unfoldable pub new_mode : ℕ → Result ModeTooWide PermissionMode
new_mode mode = if mode / 512 == 0 then ok (record { bits = mode }) else err (mode_too_wide mode)

-- `current & 0o6000`, the setuid and setgid bits; `|` adds, as the bits of a mode lie below them.
unfoldable pub resulting : PermissionMode → ℕ → Bool → ℕ
resulting mode current directory =
    if directory then current / 1024 % 4 * 1024 + mode.bits else mode.bits

pub data Before : Type 0 where
  absent : Before
  content : Bytes → Before
  hash : Bytes → Before
  unknown : Before

pub data Change : Type 0 where
  write : (before : Before) (content : Bytes) → Change
  symlink : (target : Bytes) → Change
  remove : Change
  chmod : (mode : ℕ) → Change

pub data Observed : Type 0 where
  absent : Observed
  file : Bytes → Observed
  link : Bytes → Observed
  mode : (bits : ℕ) (directory : Bool) → Observed

pub data Outcome : Type 0 where
  done not_done partial undetermined : Outcome

unfoldable pub holds : Observed → Bytes → Bool
holds (Observed.file now) wanted = now == wanted
holds _ _ = false

is_directory : ListedKind → Bool
is_directory ListedKind.directory = true
is_directory (ListedKind.symlink _ LinkPoint.directory) = true
is_directory _ = false

-- The child of the listed directory that has the path.
unfoldable pub mode_in_listing : List ListedEntry → Bytes → Observed
unfolding is_directory
mode_in_listing [] path = Observed.absent
mode_in_listing (entry ∷ entries) path =
    if entry.path == path
    then mode entry.permissions (is_directory entry.kind)
    else mode_in_listing entries path

judge_symlink : Bytes → Observed → Outcome
judge_symlink target (link now) = if now == target then done else partial
judge_symlink target Observed.absent = not_done
judge_symlink target _ = partial

judge_remove : Observed → Outcome
judge_remove Observed.absent = done
judge_remove _ = not_done

judge_mode : Result ModeTooWide PermissionMode → ℕ → Bool → Outcome
unfolding resulting
judge_mode (ok wanted) now directory =
    if resulting wanted now directory == now then done else not_done
judge_mode (err _) now directory = not_done

judge_chmod : ℕ → Observed → Outcome
unfolding judge_mode new_mode
judge_chmod wanted (mode now directory) = judge_mode (new_mode wanted) now directory
judge_chmod wanted _ = not_done

module _ (digest : Bytes → Bytes) where
  -- A destination that does not hold what was written.
  judge_unwritten : Before → Observed → Outcome
  unfolding hex_of_bytes
  judge_unwritten Before.absent Observed.absent = not_done
  judge_unwritten (content previous) (Observed.file now) =
      if previous == now then not_done else partial
  judge_unwritten (hash previous) (Observed.file now) =
      if previous == hex_of_bytes digest now then not_done else partial
  judge_unwritten unknown _ = undetermined
  judge_unwritten _ _ = partial

  unfoldable pub judge : Change → Observed → Outcome
  unfolding holds judge_unwritten judge_symlink judge_remove judge_chmod
  judge (write before wanted) observed =
      if holds observed wanted then done else judge_unwritten before observed
  judge (symlink target) observed = judge_symlink target observed
  judge remove observed = judge_remove observed
  judge (chmod wanted) observed = judge_chmod wanted observed
