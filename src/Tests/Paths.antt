-- ===== src/Tests/Paths.antt =====
-- Paths below root_dir: what lies below what, and the parents of an entry.
use remote_merge.Prelude.{◌==◌, list_eq, nat_eq, any, ◌≡◌}
use remote_merge.Text.{Bytes, codes}
use remote_merge.Paths.{EntryPath, is_below, ancestors}
use remote_merge.Paths.Ancestors.{is_below-ancestors}

abbrev deep_path : Bytes
deep_path = codes "src/a/b.rs"

is_below-ancestors_example :
    is_below deep_path (codes "src")
    ≡ any (λ (ancestor : Bytes). ancestor == codes "src") (ancestors deep_path)
is_below-ancestors_example = is_below-ancestors deep_path (codes "src")

abbrev deep_entry : EntryPath
deep_entry = record { rel = record { typed = deep_path } }
