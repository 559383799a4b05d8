-- ===== src/Scan/Raw.antt =====
-- The raw entries that a machine collects, the questions and answers, and the parts that the rules
-- of the walk are made of (crates/remote-merge-core/src/scan/raw.rs and parts.rs).
use remote_merge.Prelude.{
  ℕ, ◌%◌, ℤ, Bool, true, false, not, ◌&&◌, ◌||◌, List, [], ◌∷◌, ◌++◌, map, Option, none, some,
  Result, ok, err, ◌==◌, nat_eq, list_eq, if◌then◌else◌,
}
use remote_merge.Text.{Bytes, slash, is_empty, rsplit_once, at_most}
use remote_merge.Scan.{
  ListedKind, ListedEntry, ReadCause, ScanFailure, root_unreadable, unreadable_directory,
  changed_during_scan, unreadable_time, ScanError, failure,
}
use remote_merge.Scan.Filter.{escape_non_utf8}

pub record DirId : Type 0 where
  pub dev : ℕ
  pub ino : ℕ

pub data RawTime : Type 0 where
  read : (secs : ℤ) (nanos digits : ℕ) → RawTime
  unreadable : RawTime

pub data RawKind : Type 0 where
  file directory : RawKind
  symlink : Option Bytes → RawKind
  other : RawKind

pub record RawEntry : Type 0 where
  pub path : Bytes
  pub kind : RawKind
  pub size : ℕ
  pub mtime : RawTime
  pub mode : ℕ
  pub id : DirId

pub data LinkTarget : Type 0 where
  directory not_directory other missing unresolvable : LinkTarget

pub data Unreached : Type 0 where
  missing not_directory : Unreached
  unreadable : ReadCause → Unreached

pub data Depth : Type 0 where
  itself children all : Depth

pub record Question : Type 0 where
  pub path : Bytes
  pub depth : Depth

pub record UnreadableDir : Type 0 where
  pub path : Bytes
  pub cause : ReadCause

pub record Subtree : Type 0 where
  pub start : RawEntry
  pub entries : List RawEntry
  pub unreadable : List UnreadableDir
  pub unreadable_entries : List UnreadableDir
  pub changed : List Bytes

pub record Answer : Type 0 where
  pub entry : Result Unreached RawEntry
  pub link : Option LinkTarget
  pub subtree : Option Subtree

unfoldable pub is_directory : RawKind → Bool
is_directory RawKind.directory = true
is_directory _ = false

-- `DirId::eq`, and `ids.contains(&id)`
same_id : DirId → DirId → Bool
same_id a b = a.dev == b.dev && a.ino == b.ino

unfoldable pub has_id : List DirId → DirId → Bool
unfolding same_id
has_id [] id = false
has_id (known ∷ ids) id = same_id known id || has_id ids id

unfoldable pub join_path : Bytes → Bytes → Bytes
join_path base rel =
    if is_empty base then rel else if is_empty rel then base else base ++ slash ∷ rel

unfoldable pub shown : Bytes → Bytes
shown path = escape_non_utf8 path

unfoldable pub directory_failure : Bytes → ReadCause → ScanFailure
unfolding shown
directory_failure path cause =
    if is_empty path then root_unreadable cause else unreadable_directory (shown path) cause

unfoldable pub changed_at : Bytes → ScanError
unfolding shown
changed_at path = failure (changed_during_scan (shown path))

-- A `HashMap` keyed by paths: a later entry for a path replaces an earlier one.
unfoldable pub get {ℓ} : {A : Type ℓ} → Bytes → List (Bytes × A) → Option A
get path [] = none
get path ((key, value) ∷ rest) = elim (get path rest) [
  | some later ↦ some later
  | none ↦ if key == path then some value else none
]

-- The texts up to each "/" of a path.
unfoldable pub fronts : Bytes → List Bytes
fronts [] = []
fronts (c ∷ cs) =
    let rest = map (λ front. c ∷ front) (fronts cs) in if c == slash then [] ∷ rest else rest

ids_of : List Bytes → List (Bytes × DirId) → List DirId
unfolding get
ids_of [] dirs = []
ids_of (path ∷ paths) dirs = elim (get path dirs) [
  | some id ↦ id ∷ ids_of paths dirs
  | none ↦ ids_of paths dirs
]

-- `dirs` always has the empty path, that of the start.
unfoldable pub parent_ids : Bytes → List (Bytes × DirId) → List DirId
unfolding ids_of fronts
parent_ids path dirs = ids_of ([] ∷ fronts path) dirs

unfoldable pub listed_entry : Bytes → RawEntry → ListedKind → Result ScanError ListedEntry
listed_entry path entry kind = elim entry.mtime [
  | RawTime.unreadable ↦ err (failure (unreadable_time path))
  | RawTime.read secs nanos digits ↦ ok (record {
    path = path;
    kind = kind;
    size = entry.size;
    mtime_secs = secs;
    mtime_nanos = nanos;
    mtime_digits = digits;
    permissions = entry.mode % 4096;
  })
]

-- Where a link that waits was put.
pub data Listed : Type 0 where
  at : ℕ → Listed
  unreadable_name start : Listed

pub record PendingLink : Type 0 where
  pub path : Bytes
  pub ancestors : List DirId
  pub counter : ℕ
  pub listed : Listed

-- `PendingLink::new`
unfoldable pub start_link : Bytes → List DirId → ℕ → PendingLink
start_link path ancestors counter = record {
  path = path;
  ancestors = ancestors;
  counter = counter;
  listed = Listed.start;
}

unfoldable pub parent_of : Bytes → Bytes
parent_of path = elim (rsplit_once slash path) [ some (parent, name) ↦ parent | none ↦ [] ]

pub data Item : Type 0 where
  entry : RawEntry → Item
  unread : ReadCause → Item
  changed : Item

abbrev is_changed : Item → Bool
is_changed Item.changed = true
is_changed _ = false

-- Whether an item may stand before another: by path, at the same path what has changed first.
stands_before : Bytes × Item → Bytes × Item → Bool
unfolding at_most
stands_before (p, a) (q, b) = if p == q then is_changed a || not (is_changed b) else at_most p q

place_item : Bytes × Item → List (Bytes × Item) → List (Bytes × Item)
unfolding stands_before
place_item item [] = item ∷ []
place_item item (next ∷ items) =
    let rest = place_item item items in
    if stands_before item next then item ∷ next ∷ items else next ∷ rest

-- `sort_by` is stable.
sort_items : List (Bytes × Item) → List (Bytes × Item)
unfolding place_item
sort_items [] = []
sort_items (item ∷ items) = place_item item (sort_items items)

unfoldable pub in_path_order : Subtree → List (Bytes × Item)
unfolding sort_items
in_path_order tree = sort_items (
    map (λ (e : RawEntry). (e.path, Item.entry e)) tree.entries
    ++ map (λ (d : UnreadableDir). (d.path, Item.unread d.cause)) tree.unreadable_entries
    ++ map (λ p. (p, Item.changed)) tree.changed)
