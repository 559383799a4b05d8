-- ===== src/Scan/Walk.antt =====
-- The state of a walk, its counts and the listing that it ends with
-- (crates/remote-merge-core/src/scan/walk.rs).
pub mod Leaf
pub mod Link
pub mod Tree
pub mod Counts
pub mod Grown
pub mod Places
pub mod Allowed
use remote_merge.Prelude.{
  ℕ, zero, suc, ◌+◌, Bool, true, false, not, ◌&&◌, ◌||◌, List, [], ◌∷◌, ◌++◌, map, Option, none,
  some, is_some, Result, ok, err, ◌>>=◌, any, filter, length, ltb, max, if◌then◌else◌, get_elem?,
}
use remote_merge.Text.{Bytes, is_empty, at_most}
use remote_merge.Content.{is_utf8}
use remote_merge.Scan.{
  LinkPoint, ListedKind, ListedEntry, Listing, ReadCause, ScanError, failure, root_changed,
  unresolvable_link, unreadable_link_target,
}
use remote_merge.Scan.Filter.{Exclude, excludes}
use remote_merge.Scan.Raw.{
  DirId, RawKind, RawEntry, LinkTarget, UnreadableDir, Subtree, Answer, is_directory, has_id,
  join_path, shown, directory_failure, changed_at, get, parent_ids, listed_entry, Listed, at,
  PendingLink, parent_of, Item, in_path_order,
}

-- What changes while the walk goes on.
pub record Walk : Type 0 where
  pub counts : List ℕ
  pub entries : List ListedEntry
  pub unreadable_names : List Bytes
  pub unresolvable_names : List Bytes
  pub truncated : Bool
  pub cycle : Option Bytes
  pub pending : List PendingLink

unfoldable pub zeros : ℕ → List ℕ
zeros zero = []
zeros (suc n) = 0 ∷ zeros n

-- `Walk::new`
unfoldable pub new_walk : ℕ → Walk
unfolding zeros
new_walk counters = record {
  counts = zeros (max counters 1);
  entries = [];
  unreadable_names = [];
  unresolvable_names = [];
  truncated = false;
  cycle = none;
  pending = [];
}

unfoldable pub stopped : Walk → Bool
stopped w = w.truncated || is_some w.cycle

unfoldable pub sum : List ℕ → ℕ
sum [] = 0
sum (n ∷ ns) = n + sum ns

unfoldable pub place_entry : ListedEntry → List ListedEntry → List ListedEntry
place_entry e [] = e ∷ []
place_entry e (next ∷ es) =
    let rest = place_entry e es in if at_most e.path next.path then e ∷ next ∷ es else next ∷ rest

-- `sort_by` is stable.
unfoldable pub sort_entries : List ListedEntry → List ListedEntry
unfolding place_entry
sort_entries [] = []
sort_entries (e ∷ es) = place_entry e (sort_entries es)

place_name : Bytes → List Bytes → List Bytes
place_name name [] = name ∷ []
place_name name (next ∷ names) =
    let rest = place_name name names in
    if at_most name next then name ∷ next ∷ names else next ∷ rest

sort_names : List Bytes → List Bytes
unfolding place_name
sort_names [] = []
sort_names (name ∷ names) = place_name name (sort_names names)

unfoldable pub finish : Walk → Listing
unfolding sort_entries sort_names sum
finish w = record {
  entries = sort_entries w.entries;
  unreadable_names = sort_names w.unreadable_names;
  truncated = w.truncated;
  cycle = w.cycle;
  unresolvable_names = sort_names w.unresolvable_names;
  counted = sum w.counts;
}

-- `Listing::join`
unfoldable pub join_listings : Listing → Listing → Listing
unfolding sort_entries sort_names
join_listings a b = record {
  entries = sort_entries (a.entries ++ b.entries);
  unreadable_names = sort_names (a.unreadable_names ++ b.unreadable_names);
  truncated = a.truncated || b.truncated;
  cycle = elim a.cycle [ some path ↦ some path | none ↦ b.cycle ];
  unresolvable_names = sort_names (a.unresolvable_names ++ b.unresolvable_names);
  counted = a.counted + b.counted;
}

-- `counts[counter] += 1`. Every counter is inside the list, where the code would panic.
unfoldable pub increment : ℕ → List ℕ → List ℕ
increment counter [] = []
increment zero (n ∷ ns) = suc n ∷ ns
increment (suc counter) (n ∷ ns) = n ∷ increment counter ns

unfoldable pub exceeds : ℕ → ℕ → List ℕ → Bool
exceeds max_entries counter counts = elim (get_elem? counts counter) [
  | none ↦ false
  | some n ↦ ltb max_entries n
]

-- `Walk::count` leaves out what it returns: that the walk is not truncated then.
unfoldable pub count : ℕ → ℕ → Walk → Walk
unfolding increment exceeds
count max_entries counter w =
    let counts = increment counter w.counts in
    record w { counts = counts; truncated = w.truncated || exceeds max_entries counter counts }
