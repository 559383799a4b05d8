-- ===== src/Scan/Walk/Tree.antt =====
-- The entries below a start or a link (crates/remote-merge-core/src/scan/walk.rs and `take_link` of
-- walk_links.rs).
use remote_merge.Prelude.{
  ℕ, Bool, true, false, ◌||◌, List, [], ◌∷◌, ◌++◌, map, none, some, Result, ok, err, ◌>>=◌, any,
  filter, if◌then◌else◌,
}
use remote_merge.Text.{Bytes, is_empty}
use remote_merge.Scan.{ReadCause, ScanError, failure, root_changed}
use remote_merge.Scan.Filter.{Exclude, excludes}
use remote_merge.Scan.Raw.{
  DirId, RawEntry, UnreadableDir, Subtree, Answer, is_directory, has_id, join_path, shown,
  directory_failure, changed_at, get, parent_ids, PendingLink, parent_of, Item, in_path_order,
}
use remote_merge.Scan.Walk.{Walk, stopped}
use remote_merge.Scan.Walk.Leaf.{is_symlink, list_directory, take_waiting}
use remote_merge.Scan.Walk.Link.{point_link, to_directory}

directories : List RawEntry → List (Bytes × DirId)
directories entries =
    map (λ (e : RawEntry). (e.path, e.id)) (filter (λ (e : RawEntry). is_directory e.kind) entries)

unfoldable pub unreadable_of : Subtree → List (Bytes × ReadCause)
unreadable_of tree = map (λ (d : UnreadableDir). (d.path, d.cause)) tree.unreadable

-- What the loop over a subtree reads, besides the items.
pub record Below : Type 0 where
  pub base : Bytes
  pub ancestors : List DirId
  pub dirs : List (Bytes × DirId)
  pub unreadable : List (Bytes × ReadCause)
  pub counter : ℕ

unfoldable pub below_of : Bytes → Subtree → List DirId → ℕ → Below
unfolding directories unreadable_of
below_of base tree ancestors counter = record {
  base = base;
  ancestors = ancestors;
  dirs = ([], tree.start.id) ∷ directories tree.entries;
  unreadable = unreadable_of tree;
  counter = counter;
}

module _ (glob : Bytes → Bytes → Bool) (exclude : Exclude) (max_entries : ℕ) where
  unfoldable pub take_entry : Below → Bytes → RawEntry → Walk → Result ScanError Walk
  unfolding take_waiting get directory_failure list_directory has_id parent_ids
  take_entry below path entry w = elim (is_directory entry.kind) [
    | true ↦ elim (has_id below.ancestors entry.id) [
      | true ↦ ok (record w { cycle = some (shown path) })
      | false ↦ elim (get entry.path below.unreadable) [
        | some cause ↦ err (failure (directory_failure path cause))
        | none ↦ list_directory path entry w
      ]
    ]
    | false ↦
        let chain =
          if is_symlink entry.kind
          then below.ancestors ++ parent_ids entry.path below.dirs
          else [] in
        take_waiting glob exclude max_entries path entry chain below.counter w
  ]

  unfoldable pub take_item : Below → Bytes × Item → Walk → Result ScanError Walk
  unfolding take_entry join_path
  take_item below (rel, item) w =
      let path = join_path below.base rel in
      elim item [
        | Item.entry entry ↦ elim (is_empty entry.path || excludes glob exclude path) [
          | true ↦ ok w
          | false ↦ take_entry below path entry w
        ]
        | Item.changed ↦ elim (excludes glob exclude path) [
          | true ↦ ok w
          | false ↦ err (changed_at path)
        ]
        | Item.unread cause ↦ elim (excludes glob exclude path) [
          | true ↦ ok w
          | false ↦ err (failure (directory_failure (join_path below.base (parent_of rel)) cause))
        ]
      ]

  -- A turn that finds a cycle leaves the walk stopped, which ends the loop.
  unfoldable pub take_items : Below → List (Bytes × Item) → Walk → Result ScanError Walk
  unfolding take_item
  take_items below [] w = ok w
  take_items below (item ∷ items) w = elim (stopped w) [
    | true ↦ ok w
    | false ↦ do next ← take_item below item w; take_items below items next
  ]

  unfoldable pub take_subtree : Bytes → Subtree → List DirId → ℕ → Walk → Result ScanError Walk
  unfolding take_items below_of has_id unreadable_of get
  take_subtree base tree ancestors counter w = elim (has_id ancestors tree.start.id) [
    | true ↦ ok (record w { cycle = some (shown base) })
    | false ↦ elim (any is_empty tree.changed) [
      | true ↦ err (if is_empty base then failure root_changed else changed_at base)
      | false ↦ elim (get [] (unreadable_of tree)) [
        | some cause ↦ err (failure (directory_failure base cause))
        | none ↦ take_items (below_of base tree ancestors counter) (in_path_order tree) w
      ]
    ]
  ]

  unfoldable pub take_link : PendingLink → Answer → Walk → Result ScanError Walk
  unfolding take_subtree point_link
  take_link link answer w = do
    next ← point_link link answer w
    elim (to_directory answer) [
      | false ↦ ok next
      | true ↦ elim answer.subtree [
        | none ↦ err (changed_at link.path)
        | some tree ↦ take_subtree link.path tree link.ancestors link.counter next
      ]
    ]
