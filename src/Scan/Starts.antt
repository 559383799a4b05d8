-- ===== src/Scan/Starts.antt =====
-- The starts of a scan, with those left out that are excluded or lie below another
-- (crates/remote-merge-core/src/scan/start_paths.rs).
use remote_merge.Prelude.{
  ℕ, Bool, true, false, not, ◌&&◌, ◌||◌, List, [], ◌∷◌, map, ◌==◌, nat_eq, list_eq, any,
  if◌then◌else◌,
}
use remote_merge.Text.{Bytes, is_empty, at_most}
use remote_merge.Paths.{normalized}
use remote_merge.Scan.{Start}
use remote_merge.Scan.Filter.{Exclude, excludes}
use remote_merge.Scan.Raw.{fronts}

pub record StartPath : Type 0 where
  pub path : Bytes
  pub with_self : Bool
  pub descend : Bool
  pub group : ℕ
  pub excluded : Bool

start_path : Start → StartPath
unfolding normalized
start_path s = record {
  path = normalized s.path;
  with_self = s.with_self;
  descend = s.descend;
  group = s.group;
  excluded = false;
}

abbrev same_flag : Bool → Bool → Bool
same_flag true b = b
same_flag false b = not b

-- By path, then those that descend, then those that list themselves.
starts_before : StartPath → StartPath → Bool
unfolding at_most
starts_before a b =
    if not (a.path == b.path)
    then at_most a.path b.path
    else if not (same_flag a.descend b.descend)
    then a.descend
    else a.with_self || not b.with_self

place_start : StartPath → List StartPath → List StartPath
unfolding starts_before
place_start s [] = s ∷ []
place_start s (next ∷ rest) =
    let placed = place_start s rest in
    if starts_before s next then s ∷ next ∷ rest else next ∷ placed

-- `sort_by` is stable.
sort_starts : List StartPath → List StartPath
unfolding place_start
sort_starts [] = []
sort_starts (s ∷ rest) = place_start s (sort_starts rest)

abbrev is_itself : StartPath → Bool
is_itself s = s.with_self && not s.descend

has_path : List Bytes → Bytes → Bool
has_path paths path = any (λ p. p == path) paths

covered : List Bytes → Bytes → Bool
unfolding has_path fronts
covered descending path = has_path descending path || any (has_path descending) (fronts path)

module _ (glob : Bytes → Bytes → Bool) (exclude : Exclude) where
  -- The loop of `start_paths`; `descending` has the paths of the starts kept that descend.
  keep_starts : List Bytes → List StartPath → List StartPath
  unfolding covered
  keep_starts descending [] = []
  keep_starts descending (s ∷ rest) = elim (covered descending s.path) [
    | true ↦ keep_starts descending rest
    | false ↦ elim (is_itself s || not (excludes glob exclude s.path)) [
      | true ↦ s ∷ keep_starts (if s.descend then s.path ∷ descending else descending) rest
      | false ↦ elim s.with_self [
        | true ↦ keep_starts descending rest
        | false ↦ record s { descend = false; excluded = true } ∷ keep_starts descending rest
      ]
    ]
  ]

  unfoldable pub start_paths : List Start → Bool × List StartPath
  unfolding keep_starts sort_starts start_path
  start_paths given =
      let normal = map start_path given in
      if any (λ (s : StartPath). is_empty s.path) normal
      then (true, [])
      else (false, keep_starts [] (sort_starts normal))
