-- ===== src/Config/Values.antt =====
-- Defaults, permissions and limits of the settings, and the union of the filters
-- (crates/remote-merge-config/src/value.rs, schema.rs and merge.rs).
use remote_merge.Prelude.{
  ℕ, ◌+◌, ◌*◌, ◌-◌, Bool, true, false, not, ◌&&◌, ◌||◌, List, [], ◌∷◌, ◌++◌, Option, none, some,
  Result, ok, err, ◌>>=◌, ◌==◌, nat_eq, list_eq, any, all, leb, ltb, if◌then◌else◌,
}
use remote_merge.Scan.Filter.{has_infix}
use remote_merge.Config.Include.{listed, whole_root, all_invalid, normalize_include_paths}
use remote_merge.Text.{Bytes, is_empty, strip_prefix, codes}

pub record DefaultsConfig : Type 0 where
  pub file_permissions : ℕ
  pub dir_permissions : ℕ

pub record BackupConfig : Type 0 where
  pub enabled : Bool
  pub retention_days : ℕ

pub record AgentConfig : Type 0 where
  pub enabled : Bool
  pub deploy_dir : Bytes

pub record RawDefaultsConfig : Type 0 where
  pub file_permissions : Option Bytes
  pub dir_permissions : Option Bytes

pub record RawBackupConfig : Type 0 where
  pub enabled : Option Bool
  pub retention_days : Option ℕ

pub record RawAgentConfig : Type 0 where
  pub enabled : Option Bool
  pub deploy_dir : Option Bytes

pub record RawFilterConfig : Type 0 where
  pub exclude : Option (List Bytes)
  pub include : Option (List Bytes)

pub record FilterConfig : Type 0 where
  pub exclude : List Bytes
  pub include : List Bytes

-- The reasons why a value is refused, without their wording.
pub data ValueError : Type 0 where
  entries_out_of_range : ℕ → ValueError
  empty_digits not_octal number_overflow : Bytes → ValueError
  above_0o777 : Bytes → ℕ → ValueError
  every_include_invalid : ValueError

abbrev default_file_permissions : ℕ
default_file_permissions = 436

abbrev default_dir_permissions : ℕ
default_dir_permissions = 509

abbrev pub default_max_scan_entries : ℕ
default_max_scan_entries = 50_000

unfoldable pub validate_max_scan_entries : ℕ → Result ValueError (Unit {0})
validate_max_scan_entries n =
    if n == 0 || ltb 1_000_000 n then err (entries_out_of_range n) else ok tt

unfoldable pub or_default {ℓ} : {A : Type ℓ} → A → Option A → A
or_default d none = d
or_default d (some a) = a

-- `configured` is the value of the configuration, which was validated when it was read.
unfoldable pub resolve_max_entries : Option ℕ → ℕ → Result ValueError ℕ
unfolding validate_max_scan_entries or_default
resolve_max_entries cli_override configured = do
  valid ← validate_max_scan_entries (or_default configured cli_override)
  ok (or_default configured cli_override)

is_octal : ℕ → Bool
is_octal c = leb b'0' c && leb c b'7'

-- `u32::from_str_radix(digits, 8)`: none where a u32 does not hold the number.
read_octal : ℕ → Bytes → Option ℕ
read_octal value [] = some value
read_octal value (c ∷ cs) =
    let rest = read_octal (8 * value + (c - b'0')) cs in
    if ltb 4_294_967_295 (8 * value + (c - b'0')) then none else rest

octal_digits : Bytes → Bytes
octal_digits s = elim (strip_prefix s (codes "0o")) [ some rest ↦ rest | none ↦ s ]

unfoldable pub parse_permissions : Bytes → Result ValueError ℕ
unfolding is_octal read_octal octal_digits
parse_permissions s =
    let digits = octal_digits s in
    if is_empty digits
    then err (empty_digits s)
    else if not (all is_octal digits)
    then err (not_octal s)
    else elim (read_octal 0 digits) [
      | none ↦ err (number_overflow s)
      | some value ↦ if ltb 511 value then err (above_0o777 s value) else ok value
    ]

-- `convert_agent_config`
unfoldable pub agent_config : Option RawAgentConfig → AgentConfig
unfolding or_default
agent_config none = record { enabled = true; deploy_dir = codes "/var/tmp" }
agent_config (some r) = record {
  enabled = or_default true r.enabled;
  deploy_dir = or_default (codes "/var/tmp") r.deploy_dir;
}

-- `convert_backup_config`
unfoldable pub backup_config : Option RawBackupConfig → BackupConfig
unfolding or_default
backup_config none = record { enabled = true; retention_days = 7 }
backup_config (some r) = record {
  enabled = or_default true r.enabled;
  retention_days = or_default 7 r.retention_days;
}

permissions_or : ℕ → Option Bytes → Result ValueError ℕ
unfolding parse_permissions
permissions_or d none = ok d
permissions_or d (some text) = parse_permissions text

-- `convert_defaults_config`
unfoldable pub defaults_config : Option RawDefaultsConfig → Result ValueError DefaultsConfig
unfolding permissions_or
defaults_config none = ok (record {
  file_permissions = default_file_permissions;
  dir_permissions = default_dir_permissions;
})
defaults_config (some r) = do
  file ← permissions_or default_file_permissions r.file_permissions
  dir ← permissions_or default_dir_permissions r.dir_permissions
  ok (record { file_permissions = file; dir_permissions = dir })

-- `first.or(second)`
or_else {ℓ} : {A : Type ℓ} → Option A → Option A → Option A
or_else none second = second
or_else (some a) second = some a

-- Field by field, the project's value where it has one.
unfoldable pub merge_raw_defaults :
    Option RawDefaultsConfig → Option RawDefaultsConfig → Option RawDefaultsConfig
unfolding or_else
merge_raw_defaults none none = none
merge_raw_defaults (some g) none = some g
merge_raw_defaults none (some p) = some p
merge_raw_defaults (some g) (some p) = some (record {
  file_permissions = or_else p.file_permissions g.file_permissions;
  dir_permissions = or_else p.dir_permissions g.dir_permissions;
})

abbrev has_text : List Bytes → Bytes → Bool
has_text texts text = any (λ t. t == text) texts

add_new_texts : List Bytes → List Bytes → List Bytes
add_new_texts known [] = known
add_new_texts known (t ∷ ts) = elim (has_text known t) [
  | true ↦ add_new_texts known ts
  | false ↦ add_new_texts (known ++ t ∷ []) ts
]

filter_of : Option RawFilterConfig → RawFilterConfig
filter_of none = record { exclude = none; include = none }
filter_of (some f) = f

-- The union of the filters, as `merge_configs` makes it: repeated patterns of the project are left
-- out, and repeated values of include in either file. A file that stands alone is the first.
unfoldable pub merge_filters : Option RawFilterConfig → Option RawFilterConfig → FilterConfig
unfolding add_new_texts filter_of or_default
merge_filters global project =
    let g = filter_of global in
    let p = filter_of project in
    record {
      exclude = add_new_texts (or_default [] g.exclude) (or_default [] p.exclude);
      include =
          add_new_texts (add_new_texts [] (or_default [] g.include)) (or_default [] p.include);
    }

-- `split_suspicious_excludes`: the patterns used, and those with "../", each once.
split_from : List Bytes → List Bytes × List Bytes → List Bytes × List Bytes
unfolding has_infix
split_from [] found = found
split_from (pattern ∷ rest) (kept, suspicious) = split_from rest (
    if not (has_infix (codes "../") pattern)
    then (kept ++ pattern ∷ [], suspicious)
    else if has_text suspicious pattern
    then (kept, suspicious)
    else (kept, suspicious ++ pattern ∷ []))

unfoldable pub split_suspicious_excludes : List Bytes → List Bytes × List Bytes
unfolding split_from
split_suspicious_excludes patterns = split_from patterns ([], [])

settled_include : List Bytes → Result ValueError (List Bytes)
settled_include include =
    if is_empty include then ok [] else elim (normalize_include_paths include).0 [
      | listed paths ↦ ok paths
      | whole_root ↦ ok []
      | all_invalid ↦ err every_include_invalid
    ]

-- What `merge_configs` makes of the union.
unfoldable pub settled_filter : FilterConfig → Result ValueError FilterConfig
unfolding settled_include split_suspicious_excludes
settled_filter f = do
  include ← settled_include f.include
  ok (record { exclude = (split_suspicious_excludes f.exclude).0; include = include })
