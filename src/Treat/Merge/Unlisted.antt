-- ===== src/Treat/Merge/Unlisted.antt =====
-- From the listings to the deletion: the whole way of a path that merge deletes.
use remote_merge.Prelude.{true, false, List, Option, none, some, ok, ◌≡◌}
use remote_merge.Text.{Bytes}
use remote_merge.Scan.{Listing}
use remote_merge.Compare.State.{SideState}
use remote_merge.Compare.Verdict.{Role, left, right}
use remote_merge.Compare.Method.{Method}
use remote_merge.Compare.Pairs.{Follow, judge_pairs}
use remote_merge.Compare.Settle.{Hashes, settle_pairs}
use remote_merge.Compare.Table.{state_table}
use remote_merge.Compare.Table.OnePath.{names}
use remote_merge.Compare.Table.Absence.{state_table-absent}
use remote_merge.Compare.Comparison.{PathComparison}
use remote_merge.Treat.Merge.{MergeOptions, delete, merge_entry}
use remote_merge.Treat.Merge.Safe.{IsFile, merge_entry-delete}

-- Where the states of a path come from the listings of the sides and its pairs were judged and
-- settled from those states, merge deletes the path only with --delete, only if the listing of the
-- source was given, was neither cut short at the limit nor stopped at a cycle, and does not name
-- the path, and only if the destination has a regular file there.
pub merge_entry-delete_unlisted :
    (listings : Role → Option Listing) (outside : Role → List Bytes) (path : Bytes)
    (c : PathComparison) (m : Method) (f : Follow) (hashes : Hashes) (o : MergeOptions)
    → state_table listings outside path ≡ some c.states
    → settle_pairs (judge_pairs c.states m f) hashes ≡ ok c.pairs
    → merge_entry c o ≡ delete
    → (o.delete ≡ true)
      × ((l : Listing) × (listings left ≡ some l)
          × (l.truncated ≡ false)
          × (l.cycle ≡ none)
          × (names l path ≡ false))
      × ((b : SideState) × (c.states.states right ≡ some b) × IsFile b)
merge_entry-delete_unlisted listings outside path c m f hashes o table settled h =
    let (on, gone, there) = merge_entry-delete c m f hashes o settled h in
    (on, state_table-absent listings outside path left c.states table gone, there)
