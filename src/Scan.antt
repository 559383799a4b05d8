-- ===== src/Scan.antt =====
-- The result of a scan as the compare flow reads it
-- (crates/remote-merge-core/src/scan/outcome.rs).
pub mod Filter
pub mod Raw
pub mod Walk
pub mod Starts
pub mod StartTake
pub mod Drive
pub mod Children
pub mod Scope
use remote_merge.Prelude.{ℕ, ℤ, String, List, Bool, Option}
use remote_merge.Text.{Bytes}

pub data LinkPoint : Type 0 where
  directory not_directory other missing unresolvable : LinkPoint

pub data ListedKind : Type 0 where
  file : ListedKind
  directory : ListedKind
  symlink : Bytes → LinkPoint → ListedKind
  other : ListedKind

pub record ListedEntry : Type 0 where
  pub path : Bytes
  pub kind : ListedKind
  pub size : ℕ
  pub mtime_secs : ℤ
  pub mtime_nanos : ℕ
  pub mtime_digits : ℕ
  pub permissions : ℕ

pub record Listing : Type 0 where
  pub entries : List ListedEntry
  pub unreadable_names : List Bytes
  pub truncated : Bool
  pub cycle : Option Bytes
  pub unresolvable_names : List Bytes
  pub counted : ℕ

pub data ReadCause : Type 0 where
  permission_denied other : ReadCause

pub data ScanFailure : Type 0 where
  root_missing root_not_directory root_changed : ScanFailure
  root_unreadable : ReadCause → ScanFailure
  start_blocked : (path : Bytes) → ScanFailure
  start_unreadable unreadable_directory : (path : Bytes) (cause : ReadCause) → ScanFailure
  unresolvable_link unreadable_link_target unreadable_time : (path : Bytes) → ScanFailure
  changed_during_scan : (path : Bytes) → ScanFailure
  inconsistent_answer collect_failed : (detail : String) → ScanFailure

-- `collect` is a failure of the way the items are collected, which the rules pass on.
pub data ScanError : Type 0 where
  failure : ScanFailure → ScanError
  collect : String → ScanError

pub record Start : Type 0 where
  pub path : Bytes
  pub with_self : Bool
  pub descend : Bool
  pub group : ℕ

pub data ScanScope : Type 0 where
  whole : ScanScope
  starts : List Start → ScanScope
  children : Bytes → ScanScope
