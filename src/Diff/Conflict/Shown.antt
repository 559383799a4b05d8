-- ===== src/Diff/Conflict/Shown.antt =====
-- The lines that the regions of a three-way comparison show.
use remote_merge.Prelude.{
  ℕ, suc, ◌+◌, ◌<◌, false, List, [], ◌∷◌, ◌++◌, none, some, length, All, All-map, All-both, true,
  Some, Some-map, Has, Some-Has, ◌==◌, nat_eq, ◌≡◌, refl, arith, inl, inr, Option-cases,
}
use remote_merge.Text.{Bytes, trim_end}
use remote_merge.Content.{Text}
use remote_merge.Diff.Script.{Change}
use remote_merge.Diff.Hunks.{build_script}
use remote_merge.Diff.Conflict.{
  ConflictRegion, Overlap, ChangeInfo, Changes, overlap_of, find_clashes, merge_overlapping_regions,
  zip_lines, replacement_lines_by_index, value_at, lines_at, region_of, regions_of, conflicts_of,
  extract_changes, text_conflicts,
}
use remote_merge.Diff.Conflict.Clash.{Clash, Inside, hull}
use remote_merge.Diff.Conflict.Order.{count_up, InOrder}
use remote_merge.Diff.Conflict.Numbering.{Ordered, extract_changes-Ordered}
use remote_merge.Diff.Conflict.Covers.{Covers}
use remote_merge.Diff.Conflict.Merged.{Held}
use remote_merge.Diff.Conflict.Regions.{find_clashes-Held}

-- The map has each of the lines for one of the numbers.
abbrev Looked : List (ℕ × Bytes) → List ℕ → List Bytes → Type 0
Looked values numbers lines = All (λ v. Some (λ k. value_at k values ≡ some v) numbers) lines

value_at-append_later :
    (k : ℕ) (v : Bytes) (vs ws : List (ℕ × Bytes))
    → value_at k ws ≡ some v
    → value_at k (vs ++ ws) ≡ some v
unfolding value_at
value_at-append_later k v [] ws h = h
value_at-append_later k v ((j, w) ∷ vs) ws h = rw (value_at-append_later k v vs ws h) refl

value_at-append_none :
    (k : ℕ) (vs ws : List (ℕ × Bytes))
    → value_at k ws ≡ none
    → value_at k (vs ++ ws) ≡ value_at k vs
unfolding value_at
value_at-append_none k [] ws h = h
value_at-append_none k ((j, w) ∷ vs) ws h = rw (value_at-append_none k vs ws h) refl

-- A number below those of the lines is none of them.
value_at-zip_lines_below :
    (k m : ℕ) (vs : List Bytes) → k < m → value_at k (zip_lines (count_up m (length vs)) vs) ≡ none
unfolding value_at zip_lines count_up
value_at-zip_lines_below k m [] h = refl
value_at-zip_lines_below k m (v ∷ vs) h =
    let other : (k == m) ≡ false = ground arith in
    rw (value_at-zip_lines_below k (suc m) vs (omega arith), other) refl

-- Each of the lines stands at its number, which the lines behind those leave alone.
zip_lines-Looked :
    (m : ℕ) (vs : List Bytes) (behind : List (ℕ × Bytes))
    → ((k : ℕ) → k < m + length vs → value_at k behind ≡ none)
    → Looked (zip_lines (count_up m (length vs)) vs ++ behind) (count_up m (length vs)) vs
unfolding value_at zip_lines count_up
zip_lines-Looked m [] behind h = tt
zip_lines-Looked m (v ∷ vs) behind h =
    let rest = zip_lines (count_up (suc m) (length vs)) vs in
    let unset : value_at m (rest ++ behind) ≡ none =
      rw (value_at-append_none m rest behind (h m (omega arith)))
        (value_at-zip_lines_below m (suc m) vs (omega arith)) in
    let here : (m == m) ≡ true = ground arith in
    (
      inl (rw (unset, here) refl),
      All-map _ _
          (λ w found. inr (
            Some-map _ _ (λ k. value_at-append_later k w ((m, v) ∷ []) (rest ++ behind))
              (count_up (suc m) (length vs)) found))
          vs (zip_lines-Looked (suc m) vs behind (λ k b. h k (omega arith))),
    )

value_at-InOrder_below :
    (a lo : ℕ) (cs : Changes) (o n k : ℕ)
    → InOrder a lo cs o n
    → k < lo
    → value_at k (replacement_lines_by_index cs) ≡ none
unfolding value_at replacement_lines_by_index
value_at-InOrder_below a lo [] o n k h b = refl
value_at-InOrder_below a lo ((j, info) ∷ cs) o n k (m, p, q, r, e, h) b =
    let here = zip_lines (count_up m (length info.replacement)) info.replacement in
    rw
      (
        e,
        value_at-append_none k here (replacement_lines_by_index cs)
            (value_at-InOrder_below (suc j) (m + length info.replacement) cs o n k h (omega arith)),
      )
      (value_at-zip_lines_below k m info.replacement (omega arith))

-- The map of a side has all lines of every change.
replacement_lines-Looked :
    (a lo : ℕ) (cs : Changes) (o n : ℕ)
    → InOrder a lo cs o n
    → All (λ c. Looked (replacement_lines_by_index cs) c.1.file_lines c.1.replacement) cs
unfolding replacement_lines_by_index
replacement_lines-Looked a lo [] o n h = tt
replacement_lines-Looked a lo ((j, info) ∷ cs) o n (m, p, q, r, e, h) =
    let rest = replacement_lines_by_index cs in
    let later = m + length info.replacement in
    (
      rw e (
          zip_lines-Looked m info.replacement rest
            (λ k b. value_at-InOrder_below (suc j) later cs o n k h b)),
      All-map _ _
          (λ c.
            All-map _ _
              (λ v.
                Some-map _ _
                  (λ k. value_at-append_later k v (zip_lines info.file_lines info.replacement) rest)
                  c.1.file_lines)
              c.1.replacement)
          cs (replacement_lines-Looked (suc j) later cs o n h),
    )

lines_at-Has :
    (values : List (ℕ × Bytes)) (ks : List ℕ) (lines : List Bytes) (v : Bytes)
    → lines_at values ks ≡ some lines
    → Some (λ k. value_at k values ≡ some v) ks
    → Has lines (trim_end b'\n' v)
unfolding lines_at
lines_at-Has values [] lines v h s = absurd s
lines_at-Has values (k ∷ ks) lines v h s = elim (Option-cases (value_at k values)) [
  | inl p ↦ absurd (ground arith)
  | inr (w, p) ↦ elim (Option-cases (lines_at values ks)) [
    | inl q ↦ absurd (ground arith)
    | inr (rest, q) ↦
        let e : lines ≡ trim_end b'\n' w ∷ rest = ground arith in
        rw e (elim s [
          | inl here ↦ inl (let same : w ≡ v = ground arith in rw same refl)
          | inr there ↦ inr (lines_at-Has values ks rest v q there)
        ])
  ]
]

-- The region shows the lines of both changes and spans both.
abbrev pub ShowsBoth : (l r : ℕ × ChangeInfo) → ConflictRegion → Type 0
ShowsBoth l r region =
    Inside (hull l r) region.ref_range
    × All (λ v. Has region.left_lines (trim_end b'\n' v)) l.1.replacement
    × All (λ v. Has region.right_lines (trim_end b'\n' v)) r.1.replacement

module _ (lefts rights : List (ℕ × Bytes)) (l r : ℕ × ChangeInfo)
    (left_lines : Looked lefts l.1.file_lines l.1.replacement)
    (right_lines : Looked rights r.1.file_lines r.1.replacement) where
  region_of-ShowsBoth :
      (q : Overlap) (region : ConflictRegion)
      → region_of lefts rights q ≡ some region
      → Covers (overlap_of l r) q
      → ShowsBoth l r region
  unfolding region_of
  region_of-ShowsBoth q region h (inside, hl, hr) =
      elim (Option-cases (lines_at lefts q.left_file_lines)) [
        | inl p ↦ absurd (ground arith)
        | inr (ls, p) ↦ elim (Option-cases (lines_at rights q.right_file_lines)) [
          | inl p' ↦ absurd (ground arith)
          | inr (rs, p') ↦
              let e : region
                  ≡ record { ref_range = q.ref_range; left_lines = ls; right_lines = rs } =
                ground arith in
              rw e (
                inside,
                All-map _ _
                    (λ v s.
                      lines_at-Has lefts q.left_file_lines ls v p
                        (Some-Has _ l.1.file_lines q.left_file_lines hl s))
                    l.1.replacement left_lines,
                All-map _ _
                    (λ v s.
                      lines_at-Has rights q.right_file_lines rs v p'
                        (Some-Has _ r.1.file_lines q.right_file_lines hr s))
                    r.1.replacement right_lines,
              )
        ]
      ]

  regions_of-ShowsBoth :
      (os : List Overlap) (found : List ConflictRegion)
      → regions_of lefts rights os ≡ some found
      → Held os (overlap_of l r)
      → Some (ShowsBoth l r) found
  unfolding regions_of
  regions_of-ShowsBoth [] found h s = absurd s
  regions_of-ShowsBoth (o ∷ os) found h s = elim (Option-cases (region_of lefts rights o)) [
    | inl p ↦ absurd (ground arith)
    | inr (region, p) ↦ elim (Option-cases (regions_of lefts rights os)) [
      | inl q ↦ absurd (ground arith)
      | inr (rest, q) ↦
          let e : found ≡ region ∷ rest = ground arith in
          rw e (elim s [
            | inl here ↦ inl (region_of-ShowsBoth o region p here)
            | inr there ↦ inr (regions_of-ShowsBoth os rest q there)
          ])
    ]
  ]

conflicts_of-ShowsBoth :
    (lefts rights : Changes) (found : List ConflictRegion)
    → Ordered lefts
    → Ordered rights
    → conflicts_of lefts rights ≡ some found
    → All (λ l. All (λ r. Clash l r → Some (ShowsBoth l r) found) rights) lefts
unfolding conflicts_of
conflicts_of-ShowsBoth lefts rights found (o, n, h) (o', n', h') e =
    All-both _ _ _
      (λ l left_lines held.
        All-both _ _ _
          (λ r right_lines covered c.
            regions_of-ShowsBoth (replacement_lines_by_index lefts)
              (replacement_lines_by_index rights) l r left_lines right_lines
              (merge_overlapping_regions (find_clashes lefts rights)) found e (covered c))
          rights (replacement_lines-Looked 0 0 rights o' n' h') held)
      lefts (replacement_lines-Looked 0 0 lefts o n h) (find_clashes-Held lefts rights)

-- Whatever the differ gives, wherever a change taken from the script of the left and one taken from
-- that of the right touch a common place of the reference and put different lines there, some
-- region reported spans both and shows every line that they put there, the left's among its left
-- lines and the right's among its right lines, each without the line breaks at its end.
pub text_conflicts_complete :
    (similar : Bytes → Bytes → List Change) (reference left right : Text) (lefts rights : Changes)
    (found : List ConflictRegion)
    → extract_changes (build_script similar reference.decoded left.decoded) ≡ some lefts
    → extract_changes (build_script similar reference.decoded right.decoded) ≡ some rights
    → text_conflicts similar reference left right ≡ some found
    → All (λ l. All (λ r. Clash l r → Some (ShowsBoth l r) found) rights) lefts
unfolding text_conflicts
text_conflicts_complete similar reference left right lefts rights found p q h =
    conflicts_of-ShowsBoth lefts rights found
      (extract_changes-Ordered similar reference.decoded left.decoded lefts p)
      (extract_changes-Ordered similar reference.decoded right.decoded rights q) (ground arith)
