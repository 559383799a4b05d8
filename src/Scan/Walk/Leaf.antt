-- ===== src/Scan/Walk/Leaf.antt =====
-- The rules for the entries that are listed (crates/remote-merge-core/src/scan/walk_leaf.rs, and
-- `list_directory` of walk_links.rs).
use remote_merge.Prelude.{
  ℕ, Bool, true, false, List, [], ◌∷◌, ◌++◌, Option, none, some, Result, ok, err, ◌>>=◌, length,
  if◌then◌else◌,
}
use remote_merge.Text.{Bytes}
use remote_merge.Content.{is_utf8}
use remote_merge.Scan.{LinkPoint, ListedKind, ScanError, failure, unreadable_link_target}
use remote_merge.Scan.Filter.{Exclude}
use remote_merge.Scan.Raw.{DirId, RawKind, RawEntry, shown, listed_entry, Listed, PendingLink}
use remote_merge.Scan.Walk.{Walk, stopped, count}

unfoldable pub listed_kind : RawKind → ListedKind
listed_kind (RawKind.symlink (some target)) = ListedKind.symlink target LinkPoint.not_directory
listed_kind RawKind.other = ListedKind.other
listed_kind _ = ListedKind.file

abbrev pub is_symlink : RawKind → Bool
is_symlink (RawKind.symlink _) = true
is_symlink _ = false

abbrev pub target_unread : RawKind → Bool
target_unread (RawKind.symlink none) = true
target_unread _ = false

-- The entry is pushed, or its name is reported as unreadable.
unfoldable pub put : Bytes → RawEntry → ListedKind → Walk → Result ScanError (Walk × Listed)
unfolding listed_entry shown
put path entry kind w = elim (is_utf8 path) [
  | true ↦ do
    listed ← listed_entry path entry kind
    ok (record w { entries = w.entries ++ listed ∷ [] }, Listed.at (length w.entries))
  | false ↦ ok (
    record w { unreadable_names = w.unreadable_names ++ shown path ∷ [] },
    Listed.unreadable_name,
  )
]

unfoldable pub list_directory : Bytes → RawEntry → Walk → Result ScanError Walk
unfolding put
list_directory path entry w = do (next, listed) ← put path entry ListedKind.directory w; ok next

-- A leaf that has been counted, or is not to be.
unfoldable pub put_leaf :
    Bytes → RawEntry → List DirId → ℕ → Walk → Result ScanError (Walk × Option PendingLink)
unfolding put listed_kind
put_leaf path entry ancestors counter w = elim (target_unread entry.kind) [
  | true ↦ err (failure (unreadable_link_target (shown path)))
  | false ↦ do
    (next, listed) ← put path entry (listed_kind entry.kind) w
    ok (
      next,
      (if is_symlink entry.kind
          then some
              (record { path = path; ancestors = ancestors; counter = counter; listed = listed })
          else none),
    )
]

module _ (glob : Bytes → Bytes → Bool) (exclude : Exclude) (max_entries : ℕ) where
  -- `counter` is none for an entry that does not count.
  unfoldable pub take_leaf_counted :
      Bytes → RawEntry → List DirId → Option ℕ → Walk → Result ScanError (Walk × Option PendingLink)
  unfolding put_leaf stopped count
  take_leaf_counted path entry ancestors none w = put_leaf path entry ancestors 0 w
  take_leaf_counted path entry ancestors (some counter) w = elim (stopped w) [
    | true ↦ ok (w, none)
    | false ↦ elim (count max_entries counter w).truncated [
      | true ↦ ok (count max_entries counter w, none)
      | false ↦ put_leaf path entry ancestors counter (count max_entries counter w)
    ]
  ]

  -- A leaf below a start, which waits where it is a link.
  unfoldable pub take_waiting : Bytes → RawEntry → List DirId → ℕ → Walk → Result ScanError Walk
  unfolding take_leaf_counted
  take_waiting path entry chain counter w = do
    (next, link) ← take_leaf_counted path entry chain (some counter) w
    elim link [
      | none ↦ ok next
      | some waiting ↦ ok (record next { pending = next.pending ++ waiting ∷ [] })
    ]
