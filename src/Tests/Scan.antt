-- ===== src/Tests/Scan.antt =====
-- Scans of a machine on which every link leads to another directory with a link in it.
use remote_merge.Prelude.{
  ℕ, suc, String, Bool, true, false, List, [], ◌∷◌, ◌++◌, map, none, some, Result, ok, Returns,
  ◌==◌, nat_eq, list_eq, ◌≡◌, refl, pos, length,
}
use remote_merge.Text.{Bytes, slash, codes, split, strip_prefix}
use remote_merge.Scan.{Listing, ScanError}
use remote_merge.Scan.Filter.{Exclude, excludes}
use remote_merge.Scan.Filter.Below.{excludes-below}
use remote_merge.Scan.Raw.{RawTime, RawKind, RawEntry, LinkTarget, Question, Subtree, Answer}
use remote_merge.Scan.Starts.{StartPath}
use remote_merge.Scan.Drive.{CollectError, counters_of, scan_paths, scan_starts}
use remote_merge.Scan.Drive.Ends.{Limited, scan_paths_total}
use remote_merge.Scan.Drive.Excluded.{AllowedListing, scan_starts-whole}
use remote_merge.Scan.Children.{scan_children}
use remote_merge.Scan.Children.Once.{scan_children_total}

abbrev same_text : Bytes → Bytes → Bool
same_text pattern text = pattern == text

abbrev logs : Exclude
logs = record { segment_patterns = codes "log" ∷ []; path_patterns = codes "a/b" ∷ [] }

abbrev raw : Bytes → RawKind → ℕ → RawEntry
raw path kind ino = record {
  path = path;
  kind = kind;
  size = 3;
  mtime = RawTime.read (pos 1200) 0 0;
  mode = 420;
  id = record { dev = 1; ino = ino };
}

-- A directory with a file, an excluded directory and a link.
abbrev tree_of : ℕ → Subtree
tree_of ino = record {
  start = raw [] RawKind.directory ino;
  entries =
      raw (codes "f") RawKind.file 1
      ∷ raw (codes "log") RawKind.directory 2
      ∷ raw (codes "next") (RawKind.symlink (some (codes "/other"))) 3
      ∷ [];
  unreadable = [];
  unreadable_entries = [];
  changed = [];
}

-- Every path leads to a directory of its own.
abbrev answer_of : Question → Answer
answer_of q = record {
  entry = ok (raw [] RawKind.directory (suc (length q.path)));
  link = some LinkTarget.directory;
  subtree = some (tree_of (suc (length q.path)));
}

abbrev machine : ℕ → List Question → ℕ × Result CollectError (List Answer)
machine asked questions = (suc asked, ok (map answer_of questions))

abbrev mismatch : ℕ → ℕ → String
mismatch answers questions = "mismatch"

abbrev start_a : StartPath
start_a = record { path = codes "a"; with_self = true; descend = true; group = 0; excluded = false }

scan_paths_total_example :
    (r : Result ScanError Listing) × (scan_paths same_text logs 3 machine mismatch 0 false
        (start_a ∷ [])
      ≡ some r)
    × Returns (Limited (counters_of (start_a ∷ [])) 3) r
scan_paths_total_example = scan_paths_total same_text logs 3 machine mismatch 0 false (start_a ∷ [])

scan_starts-whole_example :
    (r : Result ScanError Listing) × (scan_starts same_text logs 3 machine mismatch 0 none ≡ some r)
    × Returns (AllowedListing same_text logs 3) r
scan_starts-whole_example = scan_starts-whole same_text logs 3 machine mismatch 0

scan_children_total_example :
    (r : Result ScanError Listing) × (scan_children same_text logs 3 machine mismatch 0 (codes "a")
      ≡ some r)
scan_children_total_example = scan_children_total same_text logs 3 machine mismatch 0 (codes "a")

excludes-below_example : excludes same_text logs (codes "a/b" ++ slash ∷ codes "c") ≡ true
unfolding excludes nat_eq list_eq split strip_prefix
excludes-below_example = excludes-below same_text logs (codes "a/b") (codes "c") refl
