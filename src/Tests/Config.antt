-- ===== src/Tests/Config.antt =====
-- The values of include in a configuration.
use remote_merge.Prelude.{List, [], ◌∷◌, Some, All, refl, nat_eq, list_eq}
use remote_merge.Text.{Bytes, codes, split, join, at_most, strip_prefix}
use remote_merge.Paths.{is_below}
use remote_merge.Config.Include.{glob, normalize_include_paths}
use remote_merge.Config.Include.Listed.{Accepted, standing, Covers, normalize_include_paths-Covers}

-- A directory, something below it, a name and a pattern.
abbrev written : List Bytes
written = codes "./a/" ∷ codes "a/b" ∷ codes "c" ∷ codes "d*" ∷ []

normalize_include_paths-Covers_example :
    All (λ raw. Accepted raw → Some (Covers (standing raw)) (codes "a" ∷ codes "c" ∷ [])) written
unfolding normalize_include_paths nat_eq list_eq split join at_most strip_prefix is_below
normalize_include_paths-Covers_example =
    normalize_include_paths-Covers written (codes "a" ∷ codes "c" ∷ []) (glob (codes "d*") ∷ [])
      refl
