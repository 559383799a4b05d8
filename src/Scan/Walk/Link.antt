-- ===== src/Scan/Walk/Link.antt =====
-- Where a link that waits leads (crates/remote-merge-core/src/scan/walk_links.rs).
use remote_merge.Prelude.{
  ℕ, zero, suc, Bool, true, false, List, [], ◌∷◌, ◌++◌, none, some, Result, ok, err,
}
use remote_merge.Scan.{LinkPoint, ListedKind, ListedEntry, ScanError, failure, unresolvable_link}
use remote_merge.Scan.Raw.{LinkTarget, Answer, shown, changed_at, Listed, at, PendingLink}
use remote_merge.Scan.Walk.{Walk}

unfoldable pub set_point : ℕ → LinkPoint → List ListedEntry → List ListedEntry
set_point index point [] = []
set_point zero point (e ∷ es) = elim e.kind [
  | ListedKind.symlink target _ ↦ record e { kind = ListedKind.symlink target point } ∷ es
  | _ ↦ e ∷ es
]
set_point (suc index) point (e ∷ es) = e ∷ set_point index point es

unfoldable pub point : PendingLink → LinkPoint → Walk → Walk
unfolding set_point
point link to w = elim link.listed [
  | at index ↦ record w { entries = set_point index to w.entries }
  | _ ↦ w
]

unfoldable pub point_unresolvable : PendingLink → Walk → Result ScanError Walk
unfolding point
point_unresolvable link w = elim link.listed [
  | Listed.start ↦ err (failure (unresolvable_link (shown link.path)))
  | Listed.unreadable_name ↦
      ok (record w { unresolvable_names = w.unresolvable_names ++ shown link.path ∷ [] })
  | at _ ↦ ok (point link LinkPoint.unresolvable w)
]

unfoldable pub point_link : PendingLink → Answer → Walk → Result ScanError Walk
unfolding point_unresolvable point
point_link link answer w = elim answer.link [
  | none ↦ err (changed_at link.path)
  | some target ↦ elim target [
    | LinkTarget.directory ↦ ok (point link LinkPoint.directory w)
    | LinkTarget.missing ↦ ok (point link LinkPoint.missing w)
    | LinkTarget.other ↦ ok (point link LinkPoint.other w)
    | LinkTarget.not_directory ↦ ok w
    | LinkTarget.unresolvable ↦ point_unresolvable link w
  ]
]

abbrev pub to_directory : Answer → Bool
to_directory answer = elim answer.link [ some LinkTarget.directory ↦ true | _ ↦ false ]
