-- ===== src/Treat/Rollback/Session.antt =====
-- Which backup session a rollback restores, and its exit code (treat/rollback_session.rs).
pub mod Chosen
use remote_merge.Prelude.{
  ℕ, Bool, true, false, not, ◌&&◌, List, [], ◌∷◌, map, Option, none, some, Result, ok, err, ◌==◌,
  nat_eq, list_eq, ltb, if◌then◌else◌,
}
use remote_merge.Text.{Bytes, is_empty}
use remote_merge.Treat.Merge.{success, error}

pub record BackupEntry : Type 0 where
  pub path : Bytes
  pub size : Option ℕ
  pub link_target : Option Bytes

pub record BackupSession : Type 0 where
  pub session_id : Bytes
  pub file_count : ℕ
  pub files : List BackupEntry
  pub expired : Bool

pub data SessionChoiceError : Type 0 where
  no_sessions : SessionChoiceError
  not_found : Bytes → SessionChoiceError
  expired : Bytes → SessionChoiceError
  all_expired : SessionChoiceError

unfoldable pub find : (BackupSession → Bool) → List BackupSession → Option BackupSession
find test [] = none
find test (s ∷ ss) = let rest = find test ss in if test s then some s else rest

named_session : Option BackupSession → Bytes → Bool → Result SessionChoiceError BackupSession
named_session none id force = err (not_found id)
named_session (some session) id force =
    if session.expired && not force then err (SessionChoiceError.expired id) else ok session

latest_session : Option BackupSession → Result SessionChoiceError BackupSession
latest_session none = err all_expired
latest_session (some session) = ok session

-- The sessions stand newest first.
unfoldable pub choose_session :
    List BackupSession → Option Bytes → Bool → Result SessionChoiceError BackupSession
unfolding find named_session latest_session
choose_session sessions (some id) force =
    named_session (find (λ session. session.session_id == id) sessions) id force
choose_session sessions none force =
    if is_empty sessions
    then err no_sessions
    else latest_session (find (λ session. not session.expired) sessions)

-- `is_expired` is `is_session_expired` for the retention and the time given.
unfoldable pub with_expiry : (Bytes → Option Bool) → List BackupSession → List BackupSession
with_expiry is_expired sessions =
    map
      (λ (session : BackupSession). record session {
        expired = elim (is_expired session.session_id) [ some true ↦ true | _ ↦ false ];
      })
      sessions

pub record RollbackCounts : Type 0 where
  pub restored : ℕ
  pub skipped : ℕ
  pub failed : ℕ

unfoldable pub rollback_exit_code : RollbackCounts → Bool → Bool → ℕ
rollback_exit_code counts dry_run stopped =
    let clean =
      if dry_run
      then counts.failed == 0
      else ltb 0 counts.restored && (counts.skipped == 0 && counts.failed == 0) in
    if clean && not stopped then success else error
