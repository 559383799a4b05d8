-- ===== src/Tests/Rollback.antt =====
-- Rollbacks of small sessions, and the ids of sessions.
use remote_merge.Prelude.{
  true, false, List, [], ◌∷◌, Option, none, some, All, All₂, ok, ◌<◌, ◌≡◌, ◌≢◌, refl, nat_eq,
  list_eq,
}
use remote_merge.Text.{Bytes, codes, split}
use remote_merge.Compare.State.{SideState}
use remote_merge.Scan.{not_directory}
use remote_merge.Resolve.{ExistingKind, exists, missing}
use remote_merge.Backup.{
  SessionId, get_to, get_from, session_of, sequence_of, parse_session_id, next_session_id,
}
use remote_merge.Backup.Newest.{next_session_id-newest}
use remote_merge.Treat.Rollback.{
  Recorded, resolved, unresolvable, restore, skip, Session, rollback_plan, replaced_link,
}
use remote_merge.Treat.Rollback.Restored.{
  RestoredWhere, Fails, lost, rollback_plan-restore, rollback_plan-unresolvable,
}
use remote_merge.Treat.Rollback.Session.{BackupSession, choose_session}
use remote_merge.Treat.Rollback.Session.Chosen.{ChosenRight, choose_session-ChosenRight}

abbrev site : Bytes
site = codes "/srv/app/a"

-- The file still stands where it stood, and a second one is gone together with nothing else.
abbrev session : Session
session =
    (
      codes "a",
      Recorded.file site,
      resolved (SideState.file none none) (exists site ExistingKind.file)
          (exists (codes "/srv/app") ExistingKind.directory),
    )
    ∷ (
      codes "b",
      Recorded.file (codes "/srv/app/b"),
      resolved SideState.absent (missing (codes "/srv/app") true)
          (exists (codes "/srv/app") ExistingKind.directory),
    )
    ∷ []

rollback_plan-restore_example : All₂ (RestoredWhere session) session (rollback_plan session)
rollback_plan-restore_example = rollback_plan-restore session

both_restored : rollback_plan session ≡ (codes "a", restore) ∷ (codes "b", restore) ∷ []
unfolding rollback_plan nat_eq list_eq split
both_restored = refl

not_replaced : Recorded.file site ≢ replaced_link
not_replaced p = cc

rollback_plan-unresolvable_example :
    All Fails (
      rollback_plan
        (lost (codes "c") (Recorded.file site) "too many links" not_replaced [] session))
rollback_plan-unresolvable_example =
    rollback_plan-unresolvable (codes "c") (Recorded.file site) "too many links" not_replaced []
      session

abbrev expired_session : BackupSession
expired_session = record {
  session_id = codes "20260914-155250";
  file_count = 0;
  files = [];
  expired = true;
}

abbrev sessions : List BackupSession
sessions =
    expired_session
    ∷ record expired_session { session_id = codes "20260913-155250"; expired = false }
    ∷ []

choose_session-ChosenRight_example :
    ChosenRight sessions none false (choose_session sessions none false)
choose_session-ChosenRight_example = choose_session-ChosenRight sessions none false

-- Times as they are written.
abbrev written : Bytes → Bytes
written time = time

abbrev read : Bytes → Option Bytes
read time = some time

abbrev second : Bytes
second = codes "20260914-155250"

abbrev there_already : List Bytes
there_already = codes "20260914-155250-12" ∷ second ∷ codes "notes" ∷ []

next_id : next_session_id read written second there_already ≡ ok (codes "20260914-155250-13")
unfolding next_session_id get_to session_of sequence_of get_from nat_eq list_eq
next_id = refl

next_session_id-newest_example :
    (s : SessionId Bytes) × (parse_session_id read (codes "20260914-155250-13") ≡ some s)
    × (s.timestamp ≡ second)
    × All
        (λ other.
          (other ≢ codes "20260914-155250-13")
          × ((o : SessionId Bytes)
              → parse_session_id read other ≡ some o
              → written o.timestamp ≡ written second
              → o.sequence < s.sequence))
        there_already
next_session_id-newest_example =
    next_session_id-newest read written second second there_already (codes "20260914-155250-13")
      refl refl refl next_id

-- A link stands in the place of the second file: neither is restored. A record that is never
-- restored stops nothing, though its path can not be resolved.
abbrev moved_session : Session
moved_session =
    (
      codes "a",
      Recorded.file site,
      resolved (SideState.file none none) (exists site ExistingKind.file)
          (exists (codes "/srv/app") ExistingKind.directory),
    )
    ∷ (
      codes "b",
      Recorded.file (codes "/srv/app/b"),
      resolved (SideState.symlink site not_directory) (exists site ExistingKind.file)
          (exists (codes "/srv/app") ExistingKind.directory),
    )
    ∷ []

none_restored :
    rollback_plan moved_session
    ≡ (codes "a", skip "path now resolves to a different location")
      ∷ (codes "b", skip "path now resolves to a different location")
      ∷ []
unfolding rollback_plan nat_eq list_eq split
none_restored = refl

abbrev link_session : Session
link_session = (codes "c", replaced_link, unresolvable "too many links") ∷ session

others_restored :
    rollback_plan link_session
    ≡ (codes "c", skip "symlink restore not supported")
      ∷ (codes "a", restore)
      ∷ (codes "b", restore)
      ∷ []
unfolding rollback_plan nat_eq list_eq split
others_restored = refl
