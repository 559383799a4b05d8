-- ===== src/Content/Lines.antt =====
-- The lines of a text tile its bytes after the BOM.
use remote_merge.Prelude.{
  ℕ, ◌+◌, ◌-◌, ◌≤◌, ◌<◌, ◌≡◌, refl, ap, List, [], ◌∷◌, ◌++◌, length, length-drop, take, drop,
  drop-drop, take-take-drop, inl, inr, Bool-cases, ltb, arith,
}
use remote_merge.Text.{Bytes}
use remote_merge.Content.{Range, slice, ends_line, line_ranges_from, line_ranges}

-- The ranges follow one another from `lo` to `hi` with no gap, and none is empty.
abbrev pub Tiles : ℕ → List Range → ℕ → Type 0
Tiles lo [] hi = lo ≡ hi
Tiles lo (r ∷ rs) hi = (r.start ≡ lo) × (lo < r.end) × Tiles r.end rs hi

line_ranges_from-Tiles :
    (rest : Bytes) (index start hi : ℕ)
    → start ≤ index
    → index + length rest ≡ hi
    → Tiles start (line_ranges_from rest index start) hi
unfolding line_ranges_from
line_ranges_from-Tiles [] index start hi h e = elim (Bool-cases (ltb start index)) [
  | inl more ↦ rw more (ground arith)
  | inr empty ↦ rw empty (ground arith)
]
line_ranges_from-Tiles (b ∷ rest) index start hi h e = elim (Bool-cases (ends_line b rest)) [
  | inl ends ↦ rw ends (
    refl,
    omega arith,
    line_ranges_from-Tiles rest (index + 1) (index + 1) hi (omega arith) (omega arith),
  )
  | inr on ↦ rw on (line_ranges_from-Tiles rest (index + 1) start hi (omega arith) (omega arith))
]

-- The lines of a text follow one another from the end of the BOM to the end of the file: no byte
-- is lost, none is in two lines, and no line is empty.
pub line_ranges-Tiles :
    (bytes : Bytes) (offset : ℕ)
    → offset ≤ length bytes
    → Tiles offset (line_ranges bytes offset) (length bytes)
unfolding line_ranges
line_ranges-Tiles bytes offset h =
    line_ranges_from-Tiles (drop offset bytes) offset offset (length bytes) (omega arith)
      (omega (arith, length-drop offset bytes))

-- The bytes of the lines, one after the other.
abbrev pub concat_lines : Bytes → List Range → Bytes
concat_lines raw [] = []
concat_lines raw (r ∷ rs) = slice raw r ++ concat_lines raw rs

Tiles-le : (lo hi : ℕ) (rs : List Range) → Tiles lo rs hi → lo ≤ hi
Tiles-le lo hi [] e = omega arith
Tiles-le lo hi (r ∷ rs) (s, p, t) = omega (arith, Tiles-le r.end hi rs t)

pub concat_lines-Tiles :
    (raw : Bytes) (lo hi : ℕ) (rs : List Range)
    → Tiles lo rs hi
    → concat_lines raw rs ≡ take (hi - lo) (drop lo raw)
concat_lines-Tiles raw lo hi [] e = let z : hi - lo ≡ 0 = omega arith in rw z
concat_lines-Tiles raw lo hi (r ∷ rs) (s, p, t) =
    rw (s, concat_lines-Tiles raw r.end hi rs t)
      (let le = Tiles-le r.end hi rs t in
        let whole : hi - lo ≡ (r.end - lo) + (hi - r.end) = omega arith in
        let there : r.end ≡ lo + (r.end - lo) = omega arith in
        rw (whole, ← take-take-drop (r.end - lo) (hi - r.end) (drop lo raw), drop-drop)
          (ap (λ (d : ℕ). take (r.end - lo) (drop lo raw) ++ take (hi - r.end) (drop d raw)) there))
