-- ===== src/Scan/Filter.antt =====
-- The patterns that keep paths out of a scan (crates/remote-merge-core/src/filter.rs,
-- scan/exclude.rs, unreadable_name.rs). The matcher of crate glob_match is a parameter.
pub mod Below
use remote_merge.Prelude.{
  ℕ, zero, suc, ◌+◌, ◌/◌, ◌%◌, Bool, true, false, not, ◌&&◌, ◌||◌, List, [], ◌∷◌, ◌++◌, Option,
  none, some, ◌==◌, nat_eq, list_eq, any, filter, length, take, drop, leb, ltb, if◌then◌else◌,
}
use remote_merge.Text.{Bytes, slash, split, is_empty, strip_prefix, codes}

-- `text.contains(needle)`
unfoldable pub has_infix : Bytes → Bytes → Bool
has_infix needle [] = is_empty needle
has_infix needle (c ∷ cs) = elim (strip_prefix (c ∷ cs) needle) [
  | some _ ↦ true
  | none ↦ has_infix needle cs
]

-- `text.strip_suffix(suffix)`
strip_suffix : Bytes → Bytes → Option Bytes
strip_suffix suffix [] = if is_empty suffix then some [] else none
strip_suffix suffix (c ∷ cs) =
    if (c ∷ cs) == suffix
    then some []
    else elim (strip_suffix suffix cs) [ some front ↦ some (c ∷ front) | none ↦ none ]

abbrev parent_step : Bytes
parent_step = codes "../"

abbrev has_slash : Bytes → Bool
has_slash pattern = any (λ c. c == slash) pattern

-- The bytes that a character may go on with.
between : ℕ → ℕ → Bytes → Bool
between low high [] = false
between low high (c ∷ cs) = leb low c && leb c high

abbrev goes_on : Bytes → Bool
goes_on = between 0x80 0xbf

-- The bytes of the character that the text starts with, 0 where it starts with none.
char_length : Bytes → ℕ
unfolding between
char_length [] = 0
char_length (c ∷ cs) =
    if ltb c 0x80
    then 1
    else if leb 0xc2 c && leb c 0xdf
    then (if goes_on cs then 2 else 0)
    else if leb 0xe0 c && leb c 0xef
    then if between (if c == 0xe0 then 0xa0 else 0x80) (if c == 0xed then 0x9f else 0xbf) cs
        && goes_on (drop 1 cs)
      then 3
      else 0
    else if leb 0xf0 c && leb c 0xf4
    then if between (if c == 0xf0 then 0x90 else 0x80) (if c == 0xf4 then 0x8f else 0xbf) cs
        && (goes_on (drop 1 cs) && goes_on (drop 2 cs))
      then 4
      else 0
    else 0

hex_digit : ℕ → ℕ
hex_digit n = if ltb n 10 then b'0' + n else b'a' + (n % 10)

-- `\xNN`
escaped_byte : ℕ → Bytes
unfolding hex_digit
escaped_byte c = codes "\\x" ++ hex_digit (c / 16) ∷ hex_digit (c % 16) ∷ []

-- `kept` more bytes belong to a character that was found.
escape_from : ℕ → Bytes → Bytes
unfolding char_length escaped_byte
escape_from kept [] = []
escape_from (suc kept) (c ∷ cs) = c ∷ escape_from kept cs
escape_from zero (c ∷ cs) = elim (char_length (c ∷ cs)) [
  | zero ↦ escaped_byte c ++ escape_from zero cs
  | suc more ↦ c ∷ escape_from more cs
]

unfoldable pub escape_non_utf8 : Bytes → Bytes
unfolding escape_from
escape_non_utf8 bytes = escape_from 0 bytes

pub record Exclude : Type 0 where
  pub segment_patterns : List Bytes
  pub path_patterns : List Bytes

-- `Exclude::new`
unfoldable pub exclude_of : List Bytes → Exclude
unfolding has_infix
exclude_of patterns =
    let kept = filter (λ pattern. not (has_infix parent_step pattern)) patterns in
    record {
      segment_patterns = filter (λ pattern. not (has_slash pattern)) kept;
      path_patterns = filter has_slash kept;
    }

-- `glob pattern path` is `glob_match::glob_match`.
module _ (glob : Bytes → Bytes → Bool) where
  matches_whole : Bytes → Bytes → Bool
  unfolding strip_suffix
  matches_whole path pattern = glob pattern path || elim (strip_suffix (codes "/**") pattern) [
    | none ↦ false
    | some prefix ↦ path == prefix || glob prefix path
  ]

  unfoldable pub matches_path_pattern : Bytes → Bytes → Bool
  unfolding has_infix matches_whole
  matches_path_pattern path pattern =
      if has_infix parent_step pattern
      then false
      else if has_slash pattern
      then matches_whole path pattern
      else any (λ segment. not (is_empty segment) && glob pattern segment) (split slash path)

  unfoldable pub is_path_excluded : Bytes → List Bytes → Bool
  unfolding matches_path_pattern
  is_path_excluded path patterns = any (λ pattern. matches_path_pattern path pattern) patterns

  -- The loop over the elements, with the text up to the element.
  unfoldable pub any_prefix : (Bytes → Bool) → Bytes → List Bytes → Bool
  any_prefix test front [] = false
  any_prefix test front (element ∷ elements) =
      not (is_empty element) && test (front ++ element)
      || any_prefix test ((front ++ element) ++ slash ∷ []) elements

  unfoldable pub excludes_text : Exclude → Bytes → Bool
  unfolding is_path_excluded any_prefix
  excludes_text exclude text =
      any (λ element. not (is_empty element) && is_path_excluded element exclude.segment_patterns)
        (split slash text)
      || any_prefix (λ prefix. is_path_excluded prefix exclude.path_patterns) [] (split slash text)

  -- `Exclude::excludes`
  unfoldable pub excludes : Exclude → Bytes → Bool
  unfolding excludes_text escape_non_utf8
  excludes exclude path =
      if is_empty exclude.segment_patterns && is_empty exclude.path_patterns || is_empty path
      then false
      else excludes_text exclude (escape_non_utf8 path)
