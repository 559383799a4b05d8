-- ===== src/FilePath.antt =====
-- Rust's `Path` on Unix, over the bytes of a path: its elements, equality, `parent` and `join`.
use remote_merge.Prelude.{
  Bool, true, false, not, ◌&&◌, ◌||◌, List, [], ◌∷◌, ◌++◌, Option, none, some, ◌==◌, nat_eq,
  list_eq, filter, if◌then◌else◌,
}
use remote_merge.Text.{Bytes, slash, split, starts_with}
use remote_merge.Paths.{dot, names_something}

-- `Path::components`: whether the path starts at the root, and its elements. Empty elements and "."
-- do not count, but for a "." that a relative path starts with.
abbrev pub PathParts : Type 0
PathParts = Bool × List Bytes

relative_parts : List Bytes → List Bytes
relative_parts [] = []
relative_parts (head ∷ rest) =
    let others = filter names_something rest in
    if head == dot || names_something head then head ∷ others else others

unfoldable pub path_parts : Bytes → PathParts
unfolding relative_parts
path_parts path =
    if starts_with slash path
    then (true, filter names_something (split slash path))
    else (false, relative_parts (split slash path))

same_bool : Bool → Bool → Bool
same_bool true b = b
same_bool false b = not b

unfoldable pub same_parts : PathParts → PathParts → Bool
unfolding same_bool
same_parts (rooted, names) (rooted', names') = same_bool rooted rooted' && names == names'

-- `Path::new(a) == Path::new(b)`
unfoldable pub same_path : Bytes → Bytes → Bool
unfolding path_parts same_parts
same_path a b = same_parts (path_parts a) (path_parts b)

without_last : List Bytes → List Bytes
without_last [] = []
without_last (name ∷ []) = []
without_last (name ∷ next ∷ names) = name ∷ without_last (next ∷ names)

-- `Path::parent`
unfoldable pub parent_parts : PathParts → Option PathParts
unfolding without_last
parent_parts (rooted, []) = none
parent_parts (rooted, name ∷ names) = some (rooted, without_last (name ∷ names))

-- `Path::new(path).parent() == Some(Path::new(real_parent))`
unfoldable pub has_parent : Bytes → Bytes → Bool
unfolding parent_parts path_parts same_parts
has_parent path real_parent = elim (parent_parts (path_parts path)) [
  | none ↦ false
  | some parts ↦ same_parts parts (path_parts real_parent)
]

-- `base.join(path)`
unfoldable pub join_parts : PathParts → PathParts → PathParts
join_parts base (true, names) = (true, names)
join_parts (rooted, front) (false, names) = (rooted, front ++ names)
