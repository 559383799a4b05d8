-- ===== src/Content/Interpreted.antt =====
-- What `interpret` gives: a text keeps the bytes of the file, and the lines of those bytes.
use remote_merge.Prelude.{
  ℕ, min, sym, ap, ◌∙◌, length-take, ◌≤◌, false, ◌||◌, [], ◌∷◌, Option, none, some, ok, ◌==◌,
  length, take, drop, any, ◌≡◌, refl, arith, Bool-cases, inl, inr, list_eq, nat_eq,
}
use remote_merge.Text.{Bytes}
use remote_merge.Content.{
  Encoding, Interpretation, Text, text_content, line_ranges, bom_length, interpret, text_of,
  decoded_body, encoding_of, is_binary, undecoded,
}

-- The text keeps its bytes as `raw`, a BOM that lies within them, and the lines after the BOM.
pub record WellFormed (t : Text) : Type 0 where
  pub bom_inside : t.bom_len ≤ length t.raw
  pub lines_of_raw : t.raw_lines ≡ line_ranges t.raw t.bom_len

bom_length-le :
    (decode : Encoding → Bytes → Option Bytes) (e : Encoding) (raw : Bytes)
    → bom_length decode e raw ≤ length raw
unfolding bom_length
bom_length-le decode e raw = elim (Bool-cases (take 3 raw == (0xef ∷ 0xbb ∷ 0xbf ∷ []))) [
  | inl e ↦
      let three : take 3 raw ≡ 0xef ∷ 0xbb ∷ 0xbf ∷ [] = ground arith in
      let enough : min 3 (length raw) ≡ 3 = sym (length-take 3 raw) ∙ ap length three in
      ground arith
  | inr e ↦ rw e (ground arith)
]

text_of-WellFormed :
    (decode : Encoding → Bytes → Option Bytes) (raw : Bytes) (e : Encoding) (bom_len : ℕ)
    (body : Option Bytes) (i : Interpretation) (t : Text)
    → bom_len ≤ length raw
    → text_of decode raw e bom_len body i ≡ ok (text_content t)
    → (t.raw ≡ raw) × WellFormed t
unfolding text_of undecoded
text_of-WellFormed decode raw e bom_len none Interpretation.unspecified t b h =
    absurd (ground arith)
text_of-WellFormed decode raw e bom_len none i t b h = absurd (ground arith)
text_of-WellFormed decode raw e bom_len (some d) i t b h =
    let same_raw : raw ≡ t.raw = cc in
    let same_bom : bom_len ≡ t.bom_len = cc in
    let same_lines : line_ranges raw bom_len ≡ t.raw_lines = cc in
    (
      sym same_raw,
      record {
        bom_inside = rw (← same_raw, ← same_bom) b;
        lines_of_raw = rw (← same_raw, ← same_bom, same_lines) refl;
      },
    )

-- Bytes read as a text are kept as they are, with a BOM that lies within them and the lines of the
-- rest; and they have no NUL among the first 8192.
pub interpret-WellFormed :
    (decode : Encoding → Bytes → Option Bytes) (raw : Bytes) (i : Interpretation) (t : Text)
    → interpret decode raw i ≡ ok (text_content t)
    → (t.raw ≡ raw) × WellFormed t × (any (λ b. b == 0) (take 8192 raw) ≡ false)
unfolding interpret
interpret-WellFormed decode raw i t h =
    elim (Bool-cases (is_binary i || any (λ b. b == 0) (take 8192 raw))) [
      | inl e ↦ absurd (ground arith)
      | inr e ↦
          let enc = encoding_of i in
          let (kept, w) =
            text_of-WellFormed decode raw enc (bom_length decode enc raw)
              (decoded_body decode enc (drop (bom_length decode enc raw) raw)) i t
              (bom_length-le decode enc raw) (ground arith) in
          (kept, w, ground arith)
    ]
