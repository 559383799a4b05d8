-- ===== src/Tests/Treat.antt =====
-- What merge does to one path on small comparisons.
use remote_merge.Prelude.{
  Option, pos, list_eq, nat_eq, true, false, List, [], ◌∷◌, none, some, ok, ◌≡◌, refl,
}
use remote_merge.Text.{codes}
use remote_merge.Scan.{LinkPoint}
use remote_merge.Compare.State.{SideState}
use remote_merge.Compare.Verdict.{
  left, right, first, second, Verdict, one_sided, same, decided, differs,
}
use remote_merge.Compare.Method.{content}
use remote_merge.Compare.Pairs.{off, judge_pairs}
use remote_merge.Compare.Table.{PathStates, no_states}
use remote_merge.Compare.Settle.{Hashes, PairVerdict, settle_pairs}
use remote_merge.Compare.Comparison.{PathComparison, find_pair}
use remote_merge.Treat.Merge.{MergeOptions, Kind, write_file, write_link, delete, merge_entry}
use remote_merge.Treat.Merge.Meaning.{Meaning}
use remote_merge.Treat.Merge.Settled.{settle_pairs-Meaning}
use remote_merge.Treat.Merge.Safe.{IsFile, Overwrites, merge_entry-delete, merge_entry-write_file}
use remote_merge.Scan.{ListedKind, ListedEntry, Listing}
use remote_merge.Compare.Verdict.{Role}
use remote_merge.Compare.Table.{state_table}
use remote_merge.Compare.Table.OnePath.{names}
use remote_merge.Treat.Merge.Unlisted.{merge_entry-delete_unlisted}

abbrev pub a_file : SideState
a_file = SideState.file (some 3) none

abbrev a_link : SideState
a_link = SideState.symlink (codes "there") LinkPoint.not_directory

-- The states of the left and of the right side of a path.
abbrev pub on_sides : SideState → SideState → PathStates
on_sides a b = record no_states {
  states = λ role. elim role [ left ↦ some a | right ↦ some b | _ ↦ none ];
}

abbrev pub one_verdict : Verdict → List PairVerdict
one_verdict verdict =
    record { pair = record { first = left; second = right }; verdict = verdict; followed = none }
    ∷ []

abbrev pub no_hashes : Hashes
no_hashes _ = none

abbrev pub compared : PathStates → Verdict → PathComparison
compared states verdict = record {
  states = states;
  pairs = one_verdict verdict;
  hashes = no_hashes;
  contents = λ _. none;
}

abbrev with_delete : MergeOptions
with_delete = record { delete = true }

only_right :
    settle_pairs (judge_pairs (on_sides SideState.absent a_file) content off) no_hashes
    ≡ ok (one_verdict (one_sided second))
unfolding settle_pairs judge_pairs no_states remote_merge.Compare.Judge.judge_states
only_right = refl

only_left :
    settle_pairs (judge_pairs (on_sides a_file SideState.absent) content off) no_hashes
    ≡ ok (one_verdict (one_sided first))
unfolding settle_pairs judge_pairs no_states remote_merge.Compare.Judge.judge_states
only_left = refl

only_left_link :
    settle_pairs (judge_pairs (on_sides a_link SideState.absent) content off) no_hashes
    ≡ ok (one_verdict (one_sided first))
unfolding settle_pairs judge_pairs no_states remote_merge.Compare.Judge.judge_states
only_left_link = refl

found_right :
    find_pair left right (one_verdict (one_sided second))
    ≡ some (record {
      pair = record { first = left; second = right };
      verdict = one_sided second;
      followed = none;
    })
unfolding find_pair remote_merge.Compare.Verdict.role_eq
found_right = refl

settle_pairs-Meaning_example :
    (a : SideState) × (b : SideState) × ((on_sides SideState.absent a_file).states left ≡ some a)
    × ((on_sides SideState.absent a_file).states right ≡ some b)
    × Meaning a b (one_sided second)
settle_pairs-Meaning_example =
    settle_pairs-Meaning (on_sides SideState.absent a_file) content off no_hashes
      (one_verdict (one_sided second)) only_right left right
      (record {
        pair = record { first = left; second = right };
        verdict = one_sided second;
        followed = none;
      })
      found_right

deleted :
    merge_entry (compared (on_sides SideState.absent a_file) (one_sided second)) with_delete
    ≡ delete
unfolding merge_entry remote_merge.Compare.Comparison.pair remote_merge.Compare.Verdict.role_eq
deleted = refl

merge_entry-delete_example :
    (true ≡ true)
    × ((on_sides SideState.absent a_file).states left ≡ some SideState.absent)
    × ((b : SideState) × ((on_sides SideState.absent a_file).states right ≡ some b) × IsFile b)
merge_entry-delete_example =
    merge_entry-delete (compared (on_sides SideState.absent a_file) (one_sided second)) content off
      no_hashes with_delete only_right deleted

file_written :
    merge_entry (compared (on_sides a_file SideState.absent) (one_sided first)) with_delete
    ≡ write_file
unfolding merge_entry remote_merge.Compare.Comparison.pair remote_merge.Compare.Verdict.role_eq
file_written = refl

merge_entry-write_file_example :
    (a : SideState) × (b : SideState) × ((on_sides a_file SideState.absent).states left ≡ some a)
    × ((on_sides a_file SideState.absent).states right ≡ some b)
    × Overwrites Kind.file a b
merge_entry-write_file_example =
    merge_entry-write_file (compared (on_sides a_file SideState.absent) (one_sided first)) content
      off no_hashes with_delete only_left file_written

link_written :
    merge_entry (compared (on_sides a_link SideState.absent) (one_sided first)) with_delete
    ≡ write_link
unfolding merge_entry remote_merge.Compare.Comparison.pair remote_merge.Compare.Verdict.role_eq
link_written = refl

abbrev listed_a : ListedEntry
listed_a = record {
  path = codes "a";
  kind = ListedKind.file;
  size = 3;
  mtime_secs = pos 1200;
  mtime_nanos = 0;
  mtime_digits = 0;
  permissions = 420;
}

abbrev listing_of : List ListedEntry → Listing
listing_of entries = record {
  entries = entries;
  unreadable_names = [];
  truncated = false;
  cycle = none;
  unresolvable_names = [];
  counted = 0;
}

-- Only the right side lists the file.
abbrev right_lists : Role → Option Listing
right_lists left = some (listing_of [])
right_lists right = some (listing_of (listed_a ∷ []))
right_lists _ = none

abbrev states_of_a : PathStates
states_of_a = elim (state_table right_lists (λ _. []) (codes "a")) [
  | some states ↦ states
  | none ↦ no_states
]

abbrev a_compared : PathComparison
a_compared = compared states_of_a (one_sided second)

a_listed : state_table right_lists (λ _. []) (codes "a") ≡ some states_of_a
unfolding state_table list_eq nat_eq
a_listed = refl

a_settled :
    settle_pairs (judge_pairs states_of_a content off) no_hashes
    ≡ ok (one_verdict (one_sided second))
unfolding state_table settle_pairs judge_pairs list_eq nat_eq remote_merge.Compare.Verdict.role_eq
    remote_merge.Compare.Judge.judge_states remote_merge.Compare.State.of_entry
a_settled = refl

a_deleted : merge_entry a_compared with_delete ≡ delete
unfolding state_table merge_entry remote_merge.Compare.Comparison.pair
    remote_merge.Compare.Verdict.role_eq list_eq nat_eq remote_merge.Compare.State.of_entry
a_deleted = refl

merge_entry-delete_unlisted_example :
    (true ≡ true)
    × ((l : Listing) × (right_lists left ≡ some l)
        × (l.truncated ≡ false)
        × (l.cycle ≡ none)
        × (names l (codes "a") ≡ false))
    × ((b : SideState) × (states_of_a.states right ≡ some b) × IsFile b)
merge_entry-delete_unlisted_example =
    merge_entry-delete_unlisted right_lists (λ _. []) (codes "a") a_compared content off no_hashes
      with_delete a_listed a_settled a_deleted
