-- ===== src/Content.antt =====
-- Reading the bytes of a file as text (crates/remote-merge-core/src/content/mod.rs).
-- The decoders of EUC-JP and Shift_JIS (crate encoding_rs) are a parameter.
pub mod Lines
pub mod Interpreted
use remote_merge.Prelude.{
  list_eq, ◌++◌, ℕ, zero, suc, ◌+◌, ◌-◌, min, String, Bool, true, false, not, ◌&&◌, ◌||◌, List, [],
  ◌∷◌, Option, none, some, Result, ok, err, ◌==◌, nat_eq, string_eq, length, take, drop, any,
  get_elem?, if◌then◌else◌, ltb, leb, Eq, is_some,
}
use remote_merge.Text.{Bytes, codes, to_ascii_lowercase}

pub data Encoding : Type 0 where
  utf8 euc_jp shift_jis : Encoding

unfoldable pub name : Encoding → Bytes
name utf8 = codes "utf-8"
name euc_jp = codes "euc-jp"
name shift_jis = codes "shift_jis"

pub data Interpretation : Type 0 where
  unspecified : Interpretation
  binary : Interpretation
  text : Encoding → Interpretation

interpretation_of : Bytes → Bytes → Result Bytes Interpretation
interpretation_of lower name =
    if lower == codes "utf-8"
    then ok (text utf8)
    else if lower == codes "euc-jp"
    then ok (text euc_jp)
    else if lower == codes "shift_jis" || lower == codes "cp932" || lower == codes "windows-31j"
    then ok (text shift_jis)
    else if lower == codes "binary"
    then ok binary
    else err (codes "unsupported content encoding: " ++ name)

-- `Interpretation::from_str`
unfoldable pub from_str : Bytes → Result Bytes Interpretation
unfolding interpretation_of
from_str name = interpretation_of (to_ascii_lowercase name) name

-- A half-open range of positions.
pub record Range : Type 0 where
  pub start : ℕ
  pub end : ℕ

pub record Text : Type 0 where
  pub raw : Bytes
  pub decoded : Bytes
  pub encoding : Encoding
  pub bom_len : ℕ
  pub raw_lines : List Range

pub data Content : Type 0 where
  binary_content : Content
  text_content : Text → Content

unfoldable pub bom : Text → Bytes
bom t = take t.bom_len t.raw

-- `&raw[range]`
abbrev pub slice : Bytes → Range → Bytes
slice raw r = take (r.end - r.start) (drop r.start raw)

-- `text.raw_line(index)`: `none` where the index is out of range and the code panics.
unfoldable pub raw_line : Text → ℕ → Option Bytes
raw_line t index = elim (get_elem? t.raw_lines index) [
  | some range ↦ some (slice t.raw range)
  | none ↦ none
]

abbrev newline : ℕ
newline = b'\n'

abbrev carriage_return : ℕ
carriage_return = 13

head_is : ℕ → Bytes → Bool
head_is b [] = false
head_is b (c ∷ _) = c == b

-- A line ends at LF, and at a CR that no LF follows.
ends_line : ℕ → Bytes → Bool
unfolding head_is
ends_line byte rest = byte == newline || (byte == carriage_return && not (head_is newline rest))

last_line : ℕ → ℕ → List Range
last_line start index = if ltb start index then record { start = start; end = index } ∷ [] else []

-- The loop over the bytes from `index` on; the line that is open began at `start`.
unfoldable pub line_ranges_from : Bytes → ℕ → ℕ → List Range
unfolding ends_line last_line
line_ranges_from [] index start = last_line start index
line_ranges_from (byte ∷ rest) index start =
    let after = line_ranges_from rest (index + 1) (index + 1) in
    let on = line_ranges_from rest (index + 1) start in
    if ends_line byte rest then record { start = start; end = index + 1 } ∷ after else on

unfoldable pub line_ranges : Bytes → ℕ → List Range
unfolding line_ranges_from
line_ranges bytes offset = line_ranges_from (drop offset bytes) offset offset

abbrev between : ℕ → ℕ → ℕ → Bool
between lo hi b = leb lo b && leb b hi

-- `std::str::from_utf8(bytes).is_ok()`. With `wanted` continuation bytes to come, the next lies
-- between `lo` and `hi`.
utf8_from : ℕ → ℕ → ℕ → Bytes → Bool
utf8_from zero lo hi [] = true
utf8_from (suc wanted) lo hi [] = false
utf8_from (suc wanted) lo hi (b ∷ bs) = between lo hi b && utf8_from wanted 0x80 0xbf bs
utf8_from zero lo hi (b ∷ bs) = elim (leb b 0x7f) [
  | true ↦ utf8_from 0 0x80 0xbf bs
  | false ↦ elim (between 0xc2 0xdf b) [
    | true ↦ utf8_from 1 0x80 0xbf bs
    | false ↦ elim (between 0xe0 0xef b) [
      | true ↦ utf8_from 2 (if b == 0xe0 then 0xa0 else 0x80) (if b == 0xed then 0x9f else 0xbf) bs
      | false ↦ elim (between 0xf0 0xf4 b) [
        | true ↦
            utf8_from 3 (if b == 0xf0 then 0x90 else 0x80) (if b == 0xf4 then 0x8f else 0xbf) bs
        | false ↦ false
      ]
    ]
  ]
]

unfoldable pub is_utf8 : Bytes → Bool
unfolding utf8_from
is_utf8 bytes = utf8_from 0 0x80 0xbf bytes

abbrev bom_bytes : Bytes
bom_bytes = 0xef ∷ 0xbb ∷ 0xbf ∷ []

is_binary : Interpretation → Bool
is_binary binary = true
is_binary _ = false

encoding_of : Interpretation → Encoding
encoding_of (text encoding) = encoding
encoding_of _ = utf8

is_utf8_encoding : Encoding → Bool
is_utf8_encoding utf8 = true
is_utf8_encoding _ = false

-- What a body that cannot be decoded is: binary, unless the encoding was asked for.
undecoded : Interpretation → Encoding → Result Encoding Content
undecoded unspecified encoding = ok binary_content
undecoded _ encoding = err encoding

-- The decoder of an encoding that is not UTF-8: the text as UTF-8, or none.
module _ (decode : Encoding → Bytes → Option Bytes) where
  decoded_body : Encoding → Bytes → Option Bytes
  unfolding is_utf8
  decoded_body utf8 body = if is_utf8 body then some body else none
  decoded_body encoding body = decode encoding body

  unfoldable pub bom_length : Encoding → Bytes → ℕ
  unfolding is_utf8_encoding
  bom_length encoding raw = if is_utf8_encoding encoding && take 3 raw == bom_bytes then 3 else 0

  text_of : Bytes → Encoding → ℕ → Option Bytes → Interpretation → Result Encoding Content
  unfolding undecoded line_ranges
  text_of raw encoding bom_len none interpretation = undecoded interpretation encoding
  text_of raw encoding bom_len (some decoded) interpretation = ok (
      text_content (record {
        raw = raw;
        decoded = decoded;
        encoding = encoding;
        bom_len = bom_len;
        raw_lines = line_ranges raw bom_len;
      }))

  -- The error is the encoding that the content is invalid in.
  unfoldable pub interpret : Bytes → Interpretation → Result Encoding Content
  unfolding is_binary encoding_of bom_length decoded_body text_of
  interpret raw interpretation =
      let encoding = encoding_of interpretation in
      let bom_len = bom_length encoding raw in
      if is_binary interpretation || any (λ b. b == 0) (take 8192 raw)
      then ok binary_content
      else text_of raw encoding bom_len (decoded_body encoding (drop bom_len raw)) interpretation
