-- ===== src/Scan/Children.antt =====
-- The listing of the children of one directory (crates/remote-merge-core/src/scan/children.rs).
pub mod Once
use remote_merge.Prelude.{
  ℕ, zero, suc, String, Bool, true, false, not, ◌&&◌, ◌||◌, List, [], ◌∷◌, ◌++◌, map, Option, none,
  some, Result, ok, err, ◌>>=◌, Returns, bind-ok, any, filter, ◌==◌, nat_eq, list_eq, if◌then◌else◌,
  ◌≡◌, refl, sym, ap, ◌∙◌, arith, Bool-cases, Option-cases, Result-cases, inl, inr,
}
use remote_merge.Text.{Bytes, slash, is_empty, strip_prefix}
use remote_merge.Paths.{normalized}
use remote_merge.Scan.{
  LinkPoint, ListedKind, ListedEntry, Listing, ScanError, ScanFailure, root_missing,
  root_unreadable, root_not_directory, root_changed, start_blocked, start_unreadable,
  unreadable_directory, unresolvable_link, unreadable_link_target, unreadable_time,
  changed_during_scan, inconsistent_answer, collect_failed,
}
use remote_merge.Scan.Filter.{Exclude}
use remote_merge.Scan.Raw.{Depth, Question, RawEntry, Answer, is_directory, start_link, PendingLink}
use remote_merge.Scan.Walk.{Walk, new_walk, finish}
use remote_merge.Scan.Walk.Leaf.{list_directory, is_symlink}
use remote_merge.Scan.Walk.Link.{point_link, to_directory}
use remote_merge.Scan.Walk.Tree.{take_subtree}
use remote_merge.Scan.StartTake.{unreached_start, missing_subtree}
use remote_merge.Scan.Drive.{CollectError, root_identity, ask, done, finished}

pub data ChildListing : Type 0 where
  children : List ListedEntry → ChildListing
  not_directory : ChildListing
  unlistable : String → ChildListing

-- Whether the directory itself is on the listing.
lists_directory : Bytes → List ListedEntry → Bool
lists_directory path [] = false
lists_directory path (e ∷ es) = elim (e.path == path) [
  | true ↦ elim e.kind [
    | ListedKind.directory ↦ true
    | ListedKind.symlink target LinkPoint.directory ↦ true
    | _ ↦ false
  ]
  | false ↦ lists_directory path es
]

-- Whether the path names a child, with "/" or nothing in front.
is_child : Bytes → ListedEntry → Bool
is_child prefix e = elim (strip_prefix e.path prefix) [
  | none ↦ false
  | some name ↦ not (is_empty name) && not (any (λ c. c == slash) name)
]

unfoldable pub children_in : Listing → Bytes → ChildListing
unfolding lists_directory is_child normalized
children_in listing given =
    let path = normalized given in
    let prefix = if is_empty path then [] else path ++ slash ∷ [] in
    if not (is_empty path) && not (lists_directory path listing.entries)
    then ChildListing.not_directory
    else children (filter (is_child prefix) listing.entries)

pub data ListingFailure : Type 0 where
  not_directory unlistable stop : ListingFailure

unfoldable pub listing_failure : ScanFailure → ListingFailure
listing_failure (start_blocked path) = ListingFailure.not_directory
listing_failure (unreadable_directory path cause) = ListingFailure.unlistable
listing_failure (start_unreadable path cause) = ListingFailure.unlistable
listing_failure (unresolvable_link path) = ListingFailure.unlistable
listing_failure (changed_during_scan path) = ListingFailure.unlistable
listing_failure _ = stop

unfoldable pub point_links : List PendingLink → List Answer → Walk → Result ScanError Walk
point_links [] answers w = ok w
point_links (link ∷ links) [] w = ok w
point_links (link ∷ links) (answer ∷ answers) w = do
  next ← point_link link answer w
  point_links links answers next

itself_questions : List PendingLink → List Question
itself_questions links =
    map (λ (link : PendingLink). record { path = link.path; depth = Depth.itself }) links

unfoldable pub child_questions : Bytes → List Question
child_questions path =
    record { path = []; depth = if is_empty path then Depth.children else Depth.itself }
    ∷ (if is_empty path then [] else record { path = path; depth = Depth.children } ∷ [])

module _ (glob : Bytes → Bytes → Bool) (exclude : Exclude) (max_entries : ℕ) where
  take_children : Bytes → Answer → Walk → Result ScanError Walk
  take_children path answer w = elim answer.subtree [
    | none ↦ err missing_subtree
    | some tree ↦ do
      next ← list_directory path tree.start w
      take_subtree glob exclude max_entries path tree [] 0 next
  ]

  unfoldable pub take_directory : Bytes → Answer → Walk → Result ScanError Walk
  unfolding take_children
  take_directory path answer w = elim answer.entry [
    | err why ↦ unreached_start path why w
    | ok entry ↦ elim (is_directory entry.kind || is_symlink entry.kind && to_directory answer) [
      | true ↦ take_children path answer w
      | false ↦ if is_symlink entry.kind then point_link (start_link path [] 0) answer w else ok w
    ]
  ]

  unfoldable pub first_children : Bytes → List Answer → Result ScanError Walk
  unfolding take_directory
  first_children path [] = err missing_subtree
  first_children path (root_answer ∷ []) = do
    root ← root_identity root_answer
    elim root_answer.subtree [
      | none ↦ err missing_subtree
      | some tree ↦ take_subtree glob exclude max_entries [] tree [] 0 (new_walk 1)
    ]
  first_children path (root_answer ∷ answer ∷ answers) = do
    root ← root_identity root_answer
    take_directory path answer (new_walk 1)

  module _ {S : Type 0} (machine : S → List Question → S × Result CollectError (List Answer))
      (mismatch : ℕ → ℕ → String) where
    unfoldable pub child_round : S → Walk → S × Result ScanError Walk
    unfolding point_links itself_questions
    child_round s w =
        let (next, reply) =
          ask glob exclude max_entries machine mismatch s (itself_questions w.pending) in
        (next, do answers ← reply; point_links w.pending answers (record w { pending = [] }))

    -- The loop over the links, on fuel. No link comes to wait, so one round is enough.
    unfoldable pub child_rounds : ℕ → S → Walk → Option (Result ScanError Walk)
    unfolding child_round
    child_rounds zero s w = if done w then some (ok w) else none
    child_rounds (suc fuel) s w = elim (done w) [
      | true ↦ some (ok w)
      | false ↦ elim (child_round s w).1 [
        | err e ↦ some (err e)
        | ok next ↦ child_rounds fuel (child_round s w).0 next
      ]
    ]

    unfoldable pub scan_children : S → Bytes → Option (Result ScanError Listing)
    unfolding child_questions first_children child_rounds normalized
    scan_children s given =
        let path = normalized given in
        let (next, reply) =
          ask glob exclude max_entries machine mismatch s (child_questions path) in
        elim (do answers ← reply; first_children path answers) [
          | err e ↦ some (err e)
          | ok w ↦ elim (child_rounds 1 next w) [
            | none ↦ none
            | some result ↦ some (finished result)
          ]
        ]
