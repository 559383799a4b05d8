-- ===== src/Compare/State.antt =====
-- The state of a path on one side (compare/state.rs).
use remote_merge.Prelude.{ℕ, ℤ, Option, none, some}
use remote_merge.Text.{Bytes}
use remote_merge.Scan.{LinkPoint, ListedKind, ListedEntry}

-- A modification time, with the number of decimal digits of the second that could be read.
pub record Mtime : Type 0 where
  pub secs : ℤ
  pub nanos : ℕ
  pub digits : ℕ

pub data SideState : Type 0 where
  absent : SideState
  unreadable_name : SideState
  other : SideState
  file : Option ℕ → Option Mtime → SideState
  directory : SideState
  symlink : Bytes → LinkPoint → SideState

unfoldable pub of_kind : ListedKind → ListedEntry → SideState
of_kind ListedKind.file e =
    file (some e.size)
      (some (record { secs = e.mtime_secs; nanos = e.mtime_nanos; digits = e.mtime_digits }))
of_kind ListedKind.directory e = directory
of_kind (ListedKind.symlink target points_to) e = symlink target points_to
of_kind ListedKind.other e = other

unfoldable pub of_entry : ListedEntry → SideState
unfolding of_kind
of_entry e = of_kind e.kind e

-- What a symlink leads to. Size and time of a regular file at its end are not known.
unfoldable pub followed_state : LinkPoint → SideState
followed_state LinkPoint.directory = directory
followed_state LinkPoint.missing = absent
followed_state LinkPoint.other = other
followed_state LinkPoint.unresolvable = other
followed_state LinkPoint.not_directory = file none none
