-- ===== src/Treat/Rollback/Harmless.antt =====
-- When the record of a path keeps no other path of the session from being restored.
use remote_merge.Prelude.{
  Bool, true, false, Option, ◌==◌, nat_eq, list_eq, ◌≡◌, inl, inr, refl, arith, Bool-cases,
}
use remote_merge.Text.{Bytes}
use remote_merge.Compare.State.{SideState}
use remote_merge.Resolve.{ExistingKind, ResolvedPath, missing, exists, ancestor_not_directory}
use remote_merge.FilePath.{same_path, has_parent}
use remote_merge.Treat.Rollback.{
  Recorded, TargetFacts, RestoreEntry, restore, entry, link_update, replaced_link, resolved,
  judge_found, judge_absent, judge_file, judge_parent, judge_link, judge,
}

-- The path exists, as the real path given.
pub data LeadsTo : ResolvedPath → Bytes → Type 0 where
  here : (real_path : Bytes) (kind : ExistingKind) → LeadsTo (exists real_path kind) real_path
  through :
      (link real_path : Bytes) (kind : Option ExistingKind)
      → LeadsTo (ResolvedPath.symlink link real_path kind) real_path

-- What the record was made from stands where it stood: the regular file with the same real path,
-- or nothing where the directory of that path still is, or the link that the merge wrote, in the
-- same directory.
pub data Unmoved : Recorded → TargetFacts → Type 0 where
  file_there :
      {size : _} {time : _} {recorded_path real_path : Bytes} {parent : ResolvedPath}
      → same_path real_path recorded_path ≡ true
      → Unmoved
          (Recorded.file recorded_path)
          (resolved (SideState.file size time) (exists real_path ExistingKind.file) parent)
  file_gone :
      {recorded_path real_parent : Bytes} {parent : ResolvedPath}
      → has_parent recorded_path real_parent ≡ true
      → Unmoved
          (Recorded.file recorded_path)
          (resolved SideState.absent (missing real_parent true) parent)
  link_there :
      {expected_target found recorded_parent real_path : Bytes} {points_to : _}
      {found_entry parent : ResolvedPath}
      → found ≡ expected_target
      → LeadsTo parent real_path
      → same_path real_path recorded_parent ≡ true
      → Unmoved
          (link_update expected_target recorded_parent)
          (resolved (SideState.symlink found points_to) found_entry parent)

same_bytes : (a b : Bytes) → (a == b) ≡ true → a ≡ b
same_bytes a b h = ground arith

bytes_same : (a b : Bytes) → a ≡ b → (a == b) ≡ true
bytes_same a b h = ground arith

parent-Unmoved :
    (expected found recorded_parent : Bytes) (points_to : _) (found_entry parent : ResolvedPath)
    → found ≡ expected
    → judge_parent recorded_parent parent ≡ entry restore
    → Unmoved
        (link_update expected recorded_parent)
        (resolved (SideState.symlink found points_to) found_entry parent)
unfolding judge_parent
parent-Unmoved expected found recorded_parent points_to found_entry (exists real kind) e h =
    link_there e (here real kind) (ground arith)
parent-Unmoved expected found recorded_parent points_to found_entry
      (ResolvedPath.symlink link real kind) e h =
    link_there e (through link real kind) (ground arith)
parent-Unmoved expected found recorded_parent points_to found_entry (missing p b) e h =
    absurd (ground arith)
parent-Unmoved expected found recorded_parent points_to found_entry (ancestor_not_directory p b) e
      h =
    absurd (ground arith)

pub judge-Unmoved :
    (record' : Recorded) (facts : TargetFacts)
    → judge record' facts ≡ entry restore
    → Unmoved record' facts
unfolding judge judge_file judge_found judge_absent judge_link
judge-Unmoved replaced_link facts h = absurd (ground arith)
judge-Unmoved (Recorded.file p) (TargetFacts.unresolvable cause) h = absurd (ground arith)
judge-Unmoved (link_update t p) (TargetFacts.unresolvable cause) h = absurd (ground arith)
judge-Unmoved (Recorded.file p) (resolved (SideState.file s t) (exists r ExistingKind.file) q) h =
    file_there (ground arith)
judge-Unmoved (Recorded.file p) (resolved SideState.absent (missing r true) q) h =
    file_gone (ground arith)
judge-Unmoved (Recorded.file p) (resolved state found q) h = absurd (ground arith)
judge-Unmoved (link_update t p) (resolved (SideState.symlink found points) e q) h =
    elim (Bool-cases (found == t)) [
      | inl same ↦ parent-Unmoved t found p points e q (same_bytes found t same) (ground arith)
      | inr other ↦ absurd (ground arith)
    ]
judge-Unmoved (link_update t p) (resolved state e q) h = absurd (ground arith)

pub Unmoved-judge :
    {record' : Recorded} {facts : TargetFacts}
    → Unmoved record' facts
    → judge record' facts ≡ entry restore
unfolding judge judge_file judge_found judge_absent judge_link judge_parent
Unmoved-judge (file_there h) = rw h
Unmoved-judge (file_gone h) = rw h
Unmoved-judge (link_there {expected_target = t} {found} e (here r k) h) =
    rw (bytes_same found t e, h)
Unmoved-judge (link_there {expected_target = t} {found} e (through l r k) h) =
    rw (bytes_same found t e, h)

-- The record stops no path of its session. What it was made from stands where it stood; or it is of
-- a link that the merge removed or replaced by a file, which is never restored; or it is of a file
-- and there is now something in its place that is neither a regular file nor a link, or a name that
-- can not be read, or nothing in a directory that is gone.
pub data Harmless : Recorded → TargetFacts → Type 0 where
  unmoved :
      {record' : Recorded} {facts : TargetFacts} → Unmoved record' facts → Harmless record' facts
  never_restored : (facts : TargetFacts) → Harmless replaced_link facts
  no_regular_file :
      (recorded_path : Bytes) (found_entry parent : ResolvedPath)
      → Harmless (Recorded.file recorded_path) (resolved SideState.other found_entry parent)
  directory_now :
      (recorded_path : Bytes) (found_entry parent : ResolvedPath)
      → Harmless (Recorded.file recorded_path) (resolved SideState.directory found_entry parent)
  name_unreadable :
      (recorded_path : Bytes) (found_entry parent : ResolvedPath)
      → Harmless
          (Recorded.file recorded_path)
          (resolved SideState.unreadable_name found_entry parent)
  directory_gone :
      (recorded_path real_parent : Bytes) (parent : ResolvedPath)
      → Harmless
          (Recorded.file recorded_path)
          (resolved SideState.absent (missing real_parent false) parent)
  directory_replaced :
      (recorded_path real_path : Bytes) (regular_file : Bool) (parent : ResolvedPath)
      → Harmless
          (Recorded.file recorded_path)
          (resolved SideState.absent (ancestor_not_directory real_path regular_file) parent)

-- A judgement that is an entry of the path alone, which stops no other path.
abbrev pub Settled : Bytes × Recorded × TargetFacts → Type 0
Settled item = (e : RestoreEntry) × (judge item.1 item.2 ≡ entry e)

judge_parent-restore :
    (recorded_parent : Bytes) (parent : ResolvedPath) (e : RestoreEntry)
    → judge_parent recorded_parent parent ≡ entry e
    → judge_parent recorded_parent parent ≡ entry restore
unfolding judge_parent
judge_parent-restore p (exists real kind) e h = ground arith
judge_parent-restore p (ResolvedPath.symlink link real kind) e h = ground arith
judge_parent-restore p (missing r b) e h = absurd (ground arith)
judge_parent-restore p (ancestor_not_directory a r) e h = absurd (ground arith)

restore-Harmless :
    (record' : Recorded) (facts : TargetFacts)
    → judge record' facts ≡ entry restore
    → Harmless record' facts
restore-Harmless record' facts h = unmoved (judge-Unmoved record' facts h)

pub Settled-Harmless :
    (path : Bytes) (record' : Recorded) (facts : TargetFacts)
    → Settled (path, record', facts)
    → Harmless record' facts
unfolding judge judge_file judge_found judge_absent judge_link
Settled-Harmless path replaced_link facts (e, h) = never_restored facts
Settled-Harmless path (Recorded.file p) (TargetFacts.unresolvable cause) (e, h) =
    absurd (ground arith)
Settled-Harmless path (link_update t p) (TargetFacts.unresolvable cause) (e, h) =
    absurd (ground arith)
Settled-Harmless path (Recorded.file p) (resolved SideState.other found q) (e, h) =
    no_regular_file p found q
Settled-Harmless path (Recorded.file p) (resolved SideState.directory found q) (e, h) =
    directory_now p found q
Settled-Harmless path (Recorded.file p) (resolved SideState.unreadable_name found q) (e, h) =
    name_unreadable p found q
Settled-Harmless path (Recorded.file p) (resolved SideState.absent (missing r false) q) (e, h) =
    directory_gone p r q
Settled-Harmless path (Recorded.file p) (resolved SideState.absent (ancestor_not_directory a r) q)
      (e, h) =
    directory_replaced p a r q
Settled-Harmless path (Recorded.file p) (resolved state found q) (e, h) =
    restore-Harmless (Recorded.file p) (resolved state found q) (ground arith)
Settled-Harmless path (link_update t p) (resolved (SideState.symlink found points) at q) (e, h) =
    elim (Bool-cases (found == t)) [
      | inl same ↦
          restore-Harmless (link_update t p) (resolved (SideState.symlink found points) at q)
            (rw same (judge_parent-restore p q e (ground arith)))
      | inr other ↦ absurd (ground arith)
    ]
Settled-Harmless path (link_update t p) (resolved state at q) (e, h) = absurd (ground arith)

pub Harmless-Settled :
    (path : Bytes) {record' : Recorded} {facts : TargetFacts}
    → Harmless record' facts
    → Settled (path, record', facts)
unfolding judge judge_file judge_absent
Harmless-Settled path (unmoved h) = (restore, Unmoved-judge h)
Harmless-Settled path (never_restored facts) = (_, refl)
Harmless-Settled path (no_regular_file p found q) = (_, refl)
Harmless-Settled path (directory_now p found q) = (_, refl)
Harmless-Settled path (name_unreadable p found q) = (_, refl)
Harmless-Settled path (directory_gone p r q) = (_, refl)
Harmless-Settled path (directory_replaced p a r q) = (_, refl)
