-- ===== src/Scan/StartTake.antt =====
-- What the answer for a start puts on the listing
-- (crates/remote-merge-core/src/scan/start_take.rs, and the helpers of drive.rs that it uses).
use remote_merge.Prelude.{
  ℕ, Bool, true, false, [], ◌∷◌, Option, none, some, Result, ok, err, ◌>>=◌, nat_eq, list_eq,
  if◌then◌else◌,
}
use remote_merge.Text.{Bytes}
use remote_merge.Scan.{ScanError, failure, start_blocked, start_unreadable, inconsistent_answer}
use remote_merge.Scan.Filter.{Exclude}
use remote_merge.Scan.Raw.{
  DirId, RawEntry, Unreached, Answer, is_directory, start_link, PendingLink,
}
use remote_merge.Scan.Walk.{Walk}
use remote_merge.Scan.Walk.Leaf.{list_directory, take_leaf_counted, is_symlink}
use remote_merge.Scan.Walk.Link.{point_link, to_directory}
use remote_merge.Scan.Walk.Tree.{take_link, take_subtree}
use remote_merge.Scan.Starts.{StartPath}

unfoldable pub unreached_start : Bytes → Unreached → Walk → Result ScanError Walk
unreached_start path why w = elim why [
  | Unreached.missing ↦ ok w
  | Unreached.not_directory ↦ err (failure (start_blocked path))
  | Unreached.unreadable cause ↦ err (failure (start_unreadable path cause))
]

abbrev pub missing_subtree : ScanError
missing_subtree = failure (inconsistent_answer "no entries below a directory")

-- The link that a start is, after it was listed.
unfoldable pub after_leaf :
    (PendingLink → Walk → Result ScanError Walk) → Walk × Option PendingLink → Result ScanError Walk
after_leaf resolve (next, none) = ok next
after_leaf resolve (next, some link) = resolve link next

module _ (glob : Bytes → Bytes → Bool) (exclude : Exclude) (max_entries : ℕ) where
  unfoldable pub take_value : Bytes → Answer → DirId → ℕ → Walk → Result ScanError Walk
  unfolding unreached_start after_leaf
  take_value path answer root counter w = elim answer.entry [
    | err why ↦ unreached_start path why w
    | ok entry ↦ elim (is_directory entry.kind) [
      | true ↦ elim answer.subtree [
        | none ↦ err missing_subtree
        | some tree ↦ take_subtree glob exclude max_entries path tree (root ∷ []) counter w
      ]
      | false ↦ do
        listed ← take_leaf_counted glob exclude max_entries path entry (root ∷ []) (some counter) w
        after_leaf (λ link. take_link glob exclude max_entries link answer) listed
    ]
  ]

  unfoldable pub take_itself : Bytes → Answer → DirId → ℕ → Walk → Result ScanError Walk
  unfolding unreached_start after_leaf
  take_itself path answer root counter w = elim answer.entry [
    | err why ↦ unreached_start path why w
    | ok entry ↦ elim (is_directory entry.kind) [
      | true ↦ list_directory path entry w
      | false ↦
          let counts = if to_directory answer then none else some counter in
          do
            listed ← take_leaf_counted glob exclude max_entries path entry (root ∷ []) counts w
            after_leaf (λ link. point_link link answer) listed
    ]
  ]

  -- The start is a directory, or a link to one: it is listed, and then what lies below.
  unfoldable pub take_container :
      StartPath → Answer → DirId → RawEntry → Walk → Result ScanError Walk
  take_container s answer root entry w = elim answer.subtree [
    | none ↦ do
      next ← list_directory s.path entry w
      if s.descend then err missing_subtree else ok next
    | some tree ↦ do
      next ← list_directory s.path tree.start w
      elim s.descend [
        | true ↦ take_subtree glob exclude max_entries s.path tree (root ∷ []) s.group next
        | false ↦ ok next
      ]
  ]

  unfoldable pub take_below : StartPath → Answer → DirId → Walk → Result ScanError Walk
  unfolding unreached_start take_container
  take_below s answer root w = elim answer.entry [
    | err why ↦ if s.excluded then ok w else unreached_start s.path why w
    | ok entry ↦ elim (is_directory entry.kind) [
      | true ↦ take_container s answer root entry w
      | false ↦ elim (is_symlink entry.kind) [
        | false ↦ ok w
        | true ↦ elim (to_directory answer) [
          | true ↦ take_container s answer root entry w
          | false ↦ elim s.excluded [
            | true ↦ ok w
            | false ↦
                take_link glob exclude max_entries (start_link s.path (root ∷ []) s.group) answer w
          ]
        ]
      ]
    ]
  ]

  unfoldable pub take_start : StartPath → Answer → DirId → Walk → Result ScanError Walk
  unfolding take_itself take_value take_below
  take_start s answer root w = elim s.with_self [
    | false ↦ take_below s answer root w
    | true ↦ elim s.descend [
      | true ↦ take_value s.path answer root s.group w
      | false ↦ take_itself s.path answer root s.group w
    ]
  ]
