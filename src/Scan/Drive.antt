-- ===== src/Scan/Drive.antt =====
-- The driver of a scan: the questions, the first answers and the rounds over the links
-- (crates/remote-merge-core/src/scan/drive.rs). The machine that collects is a parameter.
pub mod Counted
pub mod First
pub mod Ends
pub mod Excluded
use remote_merge.Prelude.{
  ℕ, zero, suc, ◌+◌, ◌*◌, String, Bool, true, false, not, ◌&&◌, ◌||◌, List, [], ◌∷◌, ◌++◌, map,
  Option, none, some, Result, ok, err, ◌>>=◌, ◌==◌, nat_eq, list_eq, any, length, if◌then◌else◌,
  max,
}
use remote_merge.Text.{Bytes, is_empty, at_most}
use remote_merge.Paths.{normalized}
use remote_merge.Scan.{
  Start, ScanScope, whole, starts, children, Listing, ScanError, failure, collect, root_missing,
  root_not_directory, root_unreadable, root_changed, start_blocked, start_unreadable,
  inconsistent_answer,
}
use remote_merge.Scan.Filter.{Exclude, excludes}
use remote_merge.Scan.Raw.{
  DirId, RawKind, RawEntry, Unreached, Depth, Question, Subtree, Answer, is_directory, fronts,
  start_link, PendingLink,
}
use remote_merge.Scan.Walk.{Walk, new_walk, stopped, finish}
use remote_merge.Scan.Walk.Leaf.{list_directory, take_leaf_counted, is_symlink}
use remote_merge.Scan.Walk.Link.{point_link, to_directory}
use remote_merge.Scan.Walk.Tree.{take_link, take_subtree}
use remote_merge.Scan.Starts.{StartPath, start_paths}
use remote_merge.Scan.StartTake.{take_start, missing_subtree}

-- The failure to collect that ends the scan.
pub data CollectError : Type 0 where
  failed : String → CollectError
  root_gone : CollectError

-- `ScanError::from`
unfoldable pub of_collect : CollectError → ScanError
of_collect (failed why) = collect why
of_collect root_gone = failure root_changed

-- `mismatch` is the wording for a wrong number of answers.
checked_reply :
    (ℕ → ℕ → String) → ℕ → Result CollectError (List Answer) → Result ScanError (List Answer)
unfolding of_collect
checked_reply mismatch asked (err why) = err (of_collect why)
checked_reply mismatch asked (ok answers) =
    if length answers == asked
    then ok answers
    else err (failure (inconsistent_answer (mismatch (length answers) asked)))

unfoldable pub root_identity : Answer → Result ScanError DirId
root_identity answer = elim answer.entry [
  | err why ↦ elim why [
    | Unreached.missing ↦ err (failure root_missing)
    | Unreached.not_directory ↦ err (failure root_not_directory)
    | Unreached.unreadable cause ↦ err (failure (root_unreadable cause))
  ]
  | ok entry ↦ if is_directory entry.kind then ok entry.id else err (failure root_not_directory)
]

link_questions : List PendingLink → List Question
link_questions links =
    map (λ (link : PendingLink). record { path = link.path; depth = Depth.all }) links

unfoldable pub counters_of : List StartPath → ℕ
counters_of [] = 1
counters_of (s ∷ []) = suc s.group
counters_of (s ∷ next ∷ rest) = max (suc s.group) (counters_of (next ∷ rest))

start_question : StartPath → Question
start_question s = record { path = s.path; depth = if s.descend then Depth.all else Depth.itself }

unfoldable pub finished : Result ScanError Walk → Result ScanError Listing
finished (ok w) = ok (finish w)
finished (err e) = err e

unfoldable pub first_questions : Bool → List StartPath → List Question
unfolding start_question
first_questions all_of_it paths =
    record { path = []; depth = if all_of_it then Depth.all else Depth.itself }
    ∷ map start_question paths

unfoldable pub done : Walk → Bool
unfolding stopped
done w = is_empty w.pending || stopped w

module _ (glob : Bytes → Bytes → Bool) (exclude : Exclude) (max_entries : ℕ) where
  -- `starts.iter().zip(answers)`
  unfoldable pub take_starts : List StartPath → List Answer → DirId → Walk → Result ScanError Walk
  take_starts [] answers root w = ok w
  take_starts (s ∷ rest) [] root w = ok w
  take_starts (s ∷ rest) (answer ∷ answers) root w = do
    next ← take_start glob exclude max_entries s answer root w
    take_starts rest answers root next

  unfoldable pub take_links : List PendingLink → List Answer → Walk → Result ScanError Walk
  take_links [] answers w = ok w
  take_links (link ∷ links) [] w = ok w
  take_links (link ∷ links) (answer ∷ answers) w = do
    next ← take_link glob exclude max_entries link answer w
    take_links links answers next

  -- What stands after the first questions are answered.
  unfoldable pub first_walk : Bool → List StartPath → ℕ → List Answer → Result ScanError Walk
  unfolding take_starts root_identity
  first_walk all_of_it paths counters [] = err missing_subtree
  first_walk true paths counters (root_answer ∷ answers) = do
    root ← root_identity root_answer
    elim root_answer.subtree [
      | none ↦ err missing_subtree
      | some tree ↦ do
        w ← take_subtree glob exclude max_entries [] tree [] 0 (new_walk counters)
        take_starts paths answers root w
    ]
  first_walk false paths counters (root_answer ∷ answers) = do
    root ← root_identity root_answer
    take_starts paths answers root (new_walk counters)

  -- `machine` answers the questions in the state it is in, and goes on to another.
  module _ {S : Type 0} (machine : S → List Question → S × Result CollectError (List Answer))
      (mismatch : ℕ → ℕ → String) where
    unfoldable pub ask : S → List Question → S × Result ScanError (List Answer)
    unfolding checked_reply
    ask s questions =
        let (next, reply) = machine s questions in
        (next, checked_reply mismatch (length questions) reply)

    -- The links that wait are asked about, and the walk goes on with the answers.
    unfoldable pub round : S → Walk → S × Result ScanError Walk
    unfolding ask link_questions take_links
    round s w =
        let (next, reply) = ask s (link_questions w.pending) in
        (next, do answers ← reply; take_links w.pending answers (record w { pending = [] }))

    -- The loop over the links that wait, on fuel: none where the fuel ends first.
    unfoldable pub rounds : ℕ → S → Walk → Option (Result ScanError Walk)
    unfolding round done
    rounds zero s w = if done w then some (ok w) else none
    rounds (suc fuel) s w = elim (done w) [
      | true ↦ some (ok w)
      | false ↦ elim (round s w).1 [
        | err e ↦ some (err e)
        | ok taken ↦ rounds fuel (round s w).0 taken
      ]
    ]

    -- Every round counts a link, so one round more than can be counted is fuel enough.
    unfoldable pub scan_paths : S → Bool → List StartPath → Option (Result ScanError Listing)
    unfolding ask first_walk counters_of first_questions rounds finished
    scan_paths s all_of_it paths =
        let (next, reply) = ask s (first_questions all_of_it paths) in
        elim (do answers ← reply; first_walk all_of_it paths (counters_of paths) answers) [
          | err e ↦ some (err e)
          | ok w ↦ elim (rounds (suc (counters_of paths * max_entries)) next w) [
            | none ↦ none
            | some result ↦ some (finished result)
          ]
        ]

    -- `scan` for the scopes that it does not leave to `scan_children`.
    unfoldable pub scan_starts : S → Option (List Start) → Option (Result ScanError Listing)
    unfolding scan_paths start_paths
    scan_starts s none = scan_paths s true []
    scan_starts s (some given) =
        let (all_of_it, paths) = start_paths glob exclude given in scan_paths s all_of_it paths
