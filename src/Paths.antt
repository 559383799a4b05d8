-- ===== src/Paths.antt =====
-- Relative paths below root_dir and the checks of their form
-- (crates/remote-merge-core/src/relative_path/mod.rs and entry.rs).
pub mod Ancestors
pub mod Below
use remote_merge.Prelude.{
  ℕ, zero, suc, length, Bool, false, not, ◌&&◌, ◌||◌, List, [], ◌∷◌, ◌++◌, map, Option, none, some,
  Result, ok, err, ◌>>=◌, ◌==◌, nat_eq, list_eq, any, filter, if◌then◌else◌,
}
use remote_merge.Text.{
  Bytes, is_empty, slash, split, join, trim_end, starts_with, strip_prefix, rsplit_once,
}

abbrev pub dot : Bytes
dot = b'.' ∷ []

abbrev pub dot_dot : Bytes
dot_dot = b'.' ∷ b'.' ∷ []

pub data RelPathError : Type 0 where
  absolute : Bytes → RelPathError
  traversal : Bytes → RelPathError
  root_dir_itself : Bytes → RelPathError

pub record RelPath : Type 0 where
  pub typed : Bytes

unfoldable pub parse : Bytes → Result RelPathError RelPath
parse input =
    if starts_with slash input && not (is_empty (trim_end slash input))
    then err (absolute input)
    else if any (λ element. element == dot_dot) (split slash input)
    then err (traversal input)
    else ok (record { typed = input })

-- `RelPath::root()`
abbrev pub root : RelPath
root = record { typed = [] }

unfoldable pub is_root : RelPath → Bool
is_root p = let stripped = trim_end slash p.typed in is_empty stripped || stripped == dot

unfoldable pub as_str : RelPath → Bytes
unfolding is_root
as_str p = if is_root p then [] else trim_end slash p.typed

unfoldable pub path_to_resolve : RelPath → Bytes
unfolding is_root
path_to_resolve p = if is_root p then [] else p.typed

unfoldable pub parent_and_name : RelPath → RelPath × Bytes
unfolding as_str
parent_and_name p = elim (rsplit_once slash (as_str p)) [
  | some (parent, name) ↦ (record { typed = parent }, name)
  | none ↦ (root, as_str p)
]

unfoldable pub is_below : Bytes → Bytes → Bool
unfolding strip_prefix
is_below path base = elim (strip_prefix path base) [
  | some rest ↦ starts_with slash rest
  | none ↦ false
]

-- Nearest first, without the path itself.
unfoldable pub ancestors : Bytes → List Bytes
ancestors [] = []
ancestors (c ∷ cs) = map (λ p. c ∷ p) (ancestors cs) ++ (if c == slash then [] ∷ [] else [])

unfoldable pub is_within : Bytes → Bytes → Bool
unfolding is_below
is_within path base = path == base || is_below path base

-- An element that stands for something: neither empty nor ".".
abbrev pub names_something : Bytes → Bool
names_something element = not (is_empty element) && not (element == dot)

unfoldable pub normalized : Bytes → Bytes
unfolding split join
normalized path = join slash (filter names_something (split slash path))

-- A path to one item below root_dir.
pub record EntryPath : Type 0 where
  pub rel : RelPath

unfoldable pub entry_of_rel : RelPath → Result RelPathError EntryPath
entry_of_rel p =
    if any names_something (split slash p.typed)
    then ok (record { rel = p })
    else err (root_dir_itself p.typed)

-- `EntryPath::parse`
unfoldable pub parse_entry : Bytes → Result RelPathError EntryPath
unfolding parse entry_of_rel
parse_entry input = do p ← parse input; entry_of_rel p

-- The loop of `parent_entries`, on fuel: `parents` holds those found, the last found first.
parents_from : ℕ → RelPath → List EntryPath → Option (List EntryPath)
unfolding entry_of_rel parent_and_name
parents_from zero current parents = none
parents_from (suc fuel) current parents = elim (entry_of_rel current) [
  | ok parent ↦ parents_from fuel (parent_and_name parent.rel).0 (parent ∷ parents)
  | err _ ↦ some parents
]

-- Every parent is shorter, so the length of the path is fuel enough.
unfoldable pub parent_entries : EntryPath → Option (List EntryPath)
unfolding parents_from
parent_entries p = parents_from (suc (length p.rel.typed)) (parent_and_name p.rel).0 []
