-- ===== src/Resolve.antt =====
-- Following a path below root_dir element by element from "/"
-- (crates/remote-merge-core/src/path_resolution).: elements, limits and what
-- stands in the way. The operations on the file system are a parameter.
pub mod Walk
pub mod RealPath
pub mod Real
use remote_merge.Prelude.{
  ℕ, zero, suc, ◌+◌, Bool, true, false, not, ◌&&◌, ◌||◌, List, [], ◌∷◌, ◌++◌, Option, none, some,
  Result, ok, err, ◌>>=◌, ◌==◌, nat_eq, list_eq, length, filter, any, leb, ltb, is_some,
  if◌then◌else◌,
}
use remote_merge.Text.{Bytes, slash, split, rsplit_once, starts_with, is_empty}
use remote_merge.Content.{is_utf8}
use remote_merge.Paths.{dot_dot, names_something}

pub data ResolveError : Type 0 where
  path_too_long too_many_links not_a_directory permission_denied : ResolveError
  dangling_symlink parent_reference_in_missing_part non_utf8_path cannot_read : ResolveError

abbrev pub path_length_limit : ℕ
path_length_limit = 4096

abbrev pub name_length_limit : ℕ
name_length_limit = 255

abbrev pub symlink_limit : ℕ
symlink_limit = 40

pub data ExistingKind : Type 0 where
  file directory other : ExistingKind

pub data EntryKind : Type 0 where
  missing directory regular_file symlink other : EntryKind

pub data ResolvedPath : Type 0 where
  missing : (real_parent : Bytes) (parent_exists : Bool) → ResolvedPath
  exists : (real_path : Bytes) (kind : ExistingKind) → ResolvedPath
  symlink : (link_target real_path : Bytes) (target_kind : Option ExistingKind) → ResolvedPath
  ancestor_not_directory : (real_path : Bytes) (regular_file : Bool) → ResolvedPath

-- The trait `PathOps`.
pub record PathOps : Type 0 where
  pub entry_kind : Bytes → Result ResolveError EntryKind
  pub can_search : Bytes → Result ResolveError Bool
  pub read_link : Bytes → Result ResolveError Bytes

pub record Component : Type 0 where
  pub name : Bytes
  pub slash_after : Bool
  pub from_rel : Bool

-- The elements of the split text; a slash follows all but the last.
unfoldable pub components_of : Bool → List Bytes → List Component
components_of from_rel [] = []
components_of from_rel (name ∷ names) =
    let rest = components_of from_rel names in
    if names_something name
    then record { name = name; slash_after = not (is_empty names); from_rel = from_rel } ∷ rest
    else rest

unfoldable pub components : Bytes → Bool → List Component
unfolding components_of
components path from_rel = components_of from_rel (split slash path)

-- A link whose text is being followed, with the number of elements that stood behind it.
pub record Expansion : Type 0 where
  pub rest : ℕ
  pub from_rel : Bool

abbrev pub root_path : Bytes
root_path = slash ∷ []

unfoldable pub joined : Bytes → Bytes → Bytes
joined real name = if real == root_path then slash ∷ name else real ++ (slash ∷ name)

unfoldable pub parent : Bytes → Bytes
parent real = elim (rsplit_once slash real) [
  | none ↦ root_path
  | some (before, after) ↦ if is_empty before then root_path else before
]

unfoldable pub joined_within_limits : Bytes → Bytes → Result ResolveError Bytes
joined_within_limits real name =
    let next = joined real name in
    if ltb name_length_limit (length name) || leb path_length_limit (length next)
    then err path_too_long
    else ok next

unfoldable pub step_in_missing_part : Bytes → Bytes → Result ResolveError Bytes
step_in_missing_part real name =
    if name == dot_dot then err parent_reference_in_missing_part else joined_within_limits real name

unfoldable pub origin_from_rel : List Expansion → Bool → Bool
origin_from_rel [] from_rel = from_rel
origin_from_rel (e ∷ _) from_rel = e.from_rel

-- An element that is no directory stands before others: `regular` says whether it is a file.
unfoldable pub not_a_directory_before :
    List Expansion → ℕ → Bool → Bytes → Bool → Result ResolveError ResolvedPath
unfolding origin_from_rel
not_a_directory_before expansions rest from_rel real_path regular =
    if any (λ e. ltb e.rest rest) expansions
    then err not_a_directory
    else if origin_from_rel expansions from_rel
    then ok (ancestor_not_directory real_path regular)
    else err not_a_directory
