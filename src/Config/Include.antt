-- ===== src/Config/Include.antt =====
-- The values of include when a configuration is read
-- (crates/remote-merge-config/src/include.rs).
pub mod Listed
use remote_merge.Prelude.{
  ℕ, zero, suc, String, Bool, true, false, not, ◌&&◌, ◌||◌, List, [], ◌∷◌, ◌++◌, Option, none, some,
  ◌==◌, nat_eq, list_eq, any, filter, if◌then◌else◌,
}
use remote_merge.Text.{Bytes, slash, split, join, is_empty, starts_with, at_most}
use remote_merge.Paths.{dot_dot, names_something, is_below}

pub data IncludeValues : Type 0 where
  listed : List Bytes → IncludeValues
  whole_root all_invalid : IncludeValues

-- The reasons for the warnings, each with the value as it was written.
pub data IncludeWarning : Type 0 where
  absolute traversal glob : Bytes → IncludeWarning

unfoldable pub strip_leading_dot_slash : Bytes → Bytes
strip_leading_dot_slash [] = []
strip_leading_dot_slash (c ∷ []) = c ∷ []
strip_leading_dot_slash (c ∷ d ∷ rest) =
    let stripped = strip_leading_dot_slash rest in
    if c == b'.' && d == slash then stripped else c ∷ d ∷ rest

-- `Component::Normal`
unfoldable pub is_normal : Bytes → Bool
is_normal element = names_something element && not (element == dot_dot)

-- Elements of a relative path: "." stands for none, also in front.
unfoldable pub join_normal_elements : Bytes → Bytes
unfolding is_normal
join_normal_elements value = join slash (filter is_normal (split slash value))

unfoldable pub is_glob : Bytes → Bool
is_glob value = any (λ c. c == b'*' || c == b'?' || c == b'[') value

unfoldable pub invalid_include_warning : Bytes → Bytes → Option IncludeWarning
unfolding is_glob
invalid_include_warning raw value =
    if starts_with slash value
    then some (absolute raw)
    else if any (λ element. element == dot_dot) (split slash value)
    then some (traversal raw)
    else if is_glob value
    then some (glob raw)
    else none

pub record Normalized : Type 0 where
  pub values : List Bytes
  pub warnings : List IncludeWarning
  pub whole : Bool

abbrev has_value : List Bytes → Bytes → Bool
has_value values value = any (λ v. v == value) values

-- A value that is not refused.
add_value : Bytes → Normalized → Normalized
add_value joined n =
    if is_empty joined
    then record n { whole = true }
    else if has_value n.values joined
    then n
    else record n { values = n.values ++ joined ∷ [] }

unfoldable pub take_value : Bytes → Bytes → Normalized → Normalized
unfolding invalid_include_warning join_normal_elements add_value
take_value raw value n = elim (is_empty value) [
  | true ↦ n
  | false ↦ elim (invalid_include_warning raw value) [
    | some warning ↦ record n { warnings = n.warnings ++ warning ∷ [] }
    | none ↦ add_value (join_normal_elements value) n
  ]
]

-- The loop over the values.
unfoldable pub take_values : List Bytes → Normalized → Normalized
unfolding take_value strip_leading_dot_slash
take_values [] n = n
take_values (raw ∷ rest) n = take_values rest (take_value raw (strip_leading_dot_slash raw) n)

unfoldable pub place_path : Bytes → List Bytes → List Bytes
unfolding at_most
place_path p [] = p ∷ []
place_path p (next ∷ ps) =
    let rest = place_path p ps in if at_most p next then p ∷ next ∷ ps else next ∷ rest

unfoldable pub sort_paths : List Bytes → List Bytes
unfolding place_path
sort_paths [] = []
sort_paths (p ∷ ps) = place_path p (sort_paths ps)

-- `dedup`: of equal neighbours the first stays. `last` is the one kept before.
dedup_after : Bytes → List Bytes → List Bytes
dedup_after last [] = []
dedup_after last (p ∷ ps) =
    let rest = dedup_after p ps in if p == last then dedup_after last ps else p ∷ rest

unfoldable pub dedup : List Bytes → List Bytes
unfolding dedup_after
dedup [] = []
dedup (p ∷ ps) = p ∷ dedup_after p ps

-- The loop, with the paths kept so far.
unfoldable pub keep_outer : List Bytes → List Bytes → List Bytes
keep_outer kept [] = kept
keep_outer kept (p ∷ ps) = elim (any (λ parent. is_below p parent) kept) [
  | true ↦ keep_outer kept ps
  | false ↦ keep_outer (kept ++ p ∷ []) ps
]

unfoldable pub drop_nested_include_paths : List Bytes → List Bytes
unfolding keep_outer dedup sort_paths
drop_nested_include_paths paths = keep_outer [] (dedup (sort_paths paths))

unfoldable pub normalize_include_paths : List Bytes → IncludeValues × List IncludeWarning
unfolding take_values drop_nested_include_paths
normalize_include_paths paths =
    let n = take_values paths (record { values = []; warnings = []; whole = false }) in
    if n.whole
    then (whole_root, n.warnings)
    else if is_empty n.values && not (is_empty n.warnings)
    then (all_invalid, n.warnings)
    else (listed (drop_nested_include_paths n.values), n.warnings)
