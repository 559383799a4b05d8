-- ===== src/Treat/Scope.antt =====
-- The scope of the scan of merge and sync, and the paths they handle (treat/merge_scope.rs).
pub mod Covered
use remote_merge.Prelude.{
  ℕ, Bool, true, false, not, ◌&&◌, ◌||◌, List, [], ◌∷◌, ◌++◌, map, Option, none, some, ◌==◌, nat_eq,
  list_eq, any, filter, length, leb, if◌then◌else◌,
}
use remote_merge.Text.{Bytes, slash, is_empty, rsplit_once}
use remote_merge.Paths.{RelPath, ancestors, normalized}

abbrev pub many_paths : ℕ
many_paths = 21

pub data MergeScope : Type 0 where
  whole : MergeScope
  below : List Bytes → MergeScope

-- `named_set` is the set of `named`.
pub record MergeTargets : Type 0 where
  pub scope : MergeScope
  pub named : List Bytes

unfoldable pub has_name : List Bytes → Bytes → Bool
has_name names path = any (λ name. name == path) names

unfoldable pub selects : MergeTargets → Bytes → Bool
unfolding has_name
selects targets path =
    is_empty targets.named
    || any (λ candidate. has_name targets.named candidate) (path ∷ ancestors path)

-- The loop that adds each item that the list does not have yet.
unfoldable pub add_new : List Bytes → List Bytes → List Bytes
unfolding has_name
add_new found [] = found
add_new found (item ∷ items) =
    add_new (if has_name found item then found else found ++ (item ∷ [])) items

ends_with_slash : Bytes → Bool
ends_with_slash [] = false
ends_with_slash (c ∷ []) = c == slash
ends_with_slash (c ∷ d ∷ cs) = ends_with_slash (d ∷ cs)

has_glob : Bytes → Bool
has_glob path = any (λ c. c == b'*' || c == b'?' || c == b'[') path

unfoldable pub parent_of : Bytes → Bytes
parent_of path = elim (rsplit_once slash path) [ some (before, name) ↦ before | none ↦ [] ]

-- The scope where the named directories, or the parents of the names, are scanned.
unfoldable pub scope_below : List Bytes → MergeScope
unfolding add_new
scope_below dirs = if any (λ dir. is_empty dir) dirs then whole else below (add_new [] dirs)

with_slash : List RelPath → ℕ
unfolding ends_with_slash
with_slash paths = length (filter (λ path. ends_with_slash path.typed) paths)

-- Where the whole of root_dir is scanned whatever the names.
unfoldable pub scans_all : List RelPath → Bool → Bool
unfolding has_glob with_slash
scans_all paths delete =
    let glob = any (λ path. has_glob path.typed) paths in
    let mixed = not (with_slash paths == 0) && not (with_slash paths == length paths) in
    delete || glob || mixed || leb many_paths (length paths)

unfoldable pub dirs_of : List RelPath → List Bytes → List Bytes
unfolding with_slash parent_of
dirs_of paths named = if with_slash paths == length paths then named else map parent_of named

unfoldable pub targets_of : List RelPath → Bool → List Bytes → MergeTargets
unfolding scans_all dirs_of scope_below
targets_of paths delete named =
    if scans_all paths delete
    then record { scope = whole; named = named }
    else record { scope = scope_below (dirs_of paths named); named = named }

unfoldable pub merge_targets : List RelPath → Bool → MergeTargets
unfolding targets_of add_new
merge_targets paths delete =
    let normals = map (λ path. normalized path.typed) paths in
    if any (λ normal. is_empty normal) normals
    then record { scope = whole; named = [] }
    else targets_of paths delete (add_new [] normals)
