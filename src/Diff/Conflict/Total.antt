-- ===== src/Diff/Conflict/Total.antt =====
-- Finding the conflicts never stops at a line that is missing from a map.
use remote_merge.Prelude.{
  ℕ, ◌≤◌, List, [], ◌∷◌, ◌++◌, some, ◌==◌, nat_eq, ltb, leb, length, All, All-append, All-map, ◌≡◌,
  refl, arith, Option-cases, inl, inr, Bool-cases,
}
use remote_merge.Text.{Bytes, trim_end}
use remote_merge.Content.{Text}
use remote_merge.Diff.Script.{Change}
use remote_merge.Diff.Conflict.{
  ConflictRegion, Overlap, ChangeInfo, Changes, set_insert, set_extend, clash, clashes_with,
  find_clashes, sort_in, sort_by_start, joined, merge_from, merge_sorted, merge_overlapping_regions,
  zip_lines, replacement_lines_by_index, value_at, lines_at, region_of, regions_of, conflicts_of,
  text_conflicts,
}
use remote_merge.Diff.Conflict.Changes.{Filled, extract_changes_total}

-- The map has a line for the number.
abbrev Known : List (ℕ × Bytes) → ℕ → Type 0
Known values k = (v : Bytes) × (value_at k values ≡ some v)

value_at-append_left : (k : ℕ) (vs ws : List (ℕ × Bytes)) → Known vs k → Known (vs ++ ws) k
unfolding value_at
value_at-append_left k [] ws (v, e) = absurd (ground arith)
value_at-append_left k ((j, w) ∷ vs) ws (v, e) = elim (Option-cases (value_at k vs)) [
  | inr (u, p) ↦ let (x, q) = value_at-append_left k vs ws (u, p) in (x, ground arith)
  | inl p ↦ elim (Option-cases (value_at k (vs ++ ws))) [
    | inr (x, q) ↦ (x, ground arith)
    | inl q ↦ (v, ground arith)
  ]
]

value_at-append_right : (k : ℕ) (vs ws : List (ℕ × Bytes)) → Known ws k → Known (vs ++ ws) k
unfolding value_at
value_at-append_right k [] ws h = h
value_at-append_right k ((j, w) ∷ vs) ws h =
    let (x, q) = value_at-append_right k vs ws h in (x, ground arith)

value_at_head : (k : ℕ) (v : Bytes) (rest : List (ℕ × Bytes)) → Known ((k, v) ∷ rest) k
unfolding value_at
value_at_head k v rest = elim (Option-cases (value_at k rest)) [
  | inr (x, q) ↦ (x, ground arith)
  | inl q ↦ (v, ground arith)
]

zip_lines-Known :
    (ks : List ℕ) (vs : List Bytes) → length ks ≤ length vs → All (Known (zip_lines ks vs)) ks
unfolding zip_lines
zip_lines-Known [] vs h = tt
zip_lines-Known (k ∷ ks) [] h = absurd (omega arith)
zip_lines-Known (k ∷ ks) (v ∷ vs) h = (
  value_at_head k v (zip_lines ks vs),
  All-map _ _ (λ j. value_at-append_right j ((k, v) ∷ []) (zip_lines ks vs)) ks
      (zip_lines-Known ks vs (omega arith)),
)

-- The numbers of every change are known.
abbrev KnownChange : List (ℕ × Bytes) → ℕ × ChangeInfo → Type 0
KnownChange values change = All (Known values) change.1.file_lines

replacement_lines-Known :
    (cs : Changes) → All Filled cs → All (KnownChange (replacement_lines_by_index cs)) cs
unfolding replacement_lines_by_index
replacement_lines-Known [] h = tt
replacement_lines-Known ((k, info) ∷ cs) (h, hs) =
    let here = zip_lines info.file_lines info.replacement in
    let rest = replacement_lines_by_index cs in
    (
      All-map _ _ (λ j. value_at-append_left j here rest) info.file_lines
          (zip_lines-Known info.file_lines info.replacement h),
      All-map _ _ (λ c. All-map _ _ (λ j. value_at-append_right j here rest) c.1.file_lines) cs
          (replacement_lines-Known cs hs),
    )

module _ (lefts rights : List (ℕ × Bytes)) where
  abbrev KnownOverlap : Overlap → Type 0
  KnownOverlap o = All (Known lefts) o.left_file_lines × All (Known rights) o.right_file_lines

  clashes_with-Known :
      (l : ℕ × ChangeInfo) (rs : Changes)
      → KnownChange lefts l
      → All (KnownChange rights) rs
      → All KnownOverlap (clashes_with l rs)
  unfolding clashes_with
  clashes_with-Known l [] h hs = tt
  clashes_with-Known l (r ∷ rs) h (k, ks) = elim (Bool-cases (clash l r)) [
    | inl e ↦ rw e ((h, k), clashes_with-Known l rs h ks)
    | inr e ↦ rw e (clashes_with-Known l rs h ks)
  ]

  find_clashes-Known :
      (ls rs : Changes)
      → All (KnownChange lefts) ls
      → All (KnownChange rights) rs
      → All KnownOverlap (find_clashes ls rs)
  unfolding find_clashes
  find_clashes-Known [] rs h k = tt
  find_clashes-Known (l ∷ ls) rs (h, hs) k =
      All-append KnownOverlap (clashes_with l rs) (find_clashes ls rs) (clashes_with-Known l rs h k)
        (find_clashes-Known ls rs hs k)

  set_insert-All : (P : ℕ → Type 0) (k : ℕ) (js : List ℕ) → P k → All P js → All P (set_insert k js)
  unfolding set_insert
  set_insert-All P k [] h hs = (h, tt)
  set_insert-All P k (j ∷ js) h (g, gs) = elim (Bool-cases (ltb k j)) [
    | inl below ↦ rw below (h, (g, gs))
    | inr not_below ↦ elim (Bool-cases (k == j)) [
      | inl here ↦ rw (not_below, here) (g, gs)
      | inr above ↦ rw (not_below, above) (g, set_insert-All P k js h gs)
    ]
  ]

  set_extend-All :
      (P : ℕ → Type 0) (js ks : List ℕ) → All P js → All P ks → All P (set_extend js ks)
  unfolding set_extend
  set_extend-All P js [] h k = h
  set_extend-All P js (k ∷ ks) h (g, gs) =
      set_extend-All P (set_insert k js) ks (set_insert-All P k js g h) gs

  sort_in-Known :
      (o : Overlap) (ps : List Overlap)
      → KnownOverlap o
      → All KnownOverlap ps
      → All KnownOverlap (sort_in o ps)
  unfolding sort_in
  sort_in-Known o [] h hs = (h, tt)
  sort_in-Known o (p ∷ ps) h (g, gs) = elim (Bool-cases (leb o.ref_range.start p.ref_range.start)) [
    | inl front ↦ rw front (h, (g, gs))
    | inr behind ↦ rw behind (g, sort_in-Known o ps h gs)
  ]

  sort_by_start-Known :
      (os : List Overlap) → All KnownOverlap os → All KnownOverlap (sort_by_start os)
  unfolding sort_by_start
  sort_by_start-Known [] h = tt
  sort_by_start-Known (o ∷ os) (h, hs) =
      sort_in-Known o (sort_by_start os) h (sort_by_start-Known os hs)

  merge_from-Known :
      (last : Overlap) (os : List Overlap)
      → KnownOverlap last
      → All KnownOverlap os
      → All KnownOverlap (merge_from last os)
  unfolding merge_from joined
  merge_from-Known last [] h hs = (h, tt)
  merge_from-Known last (o ∷ os) (hl, hr) ((gl, gr), gs) =
      elim (Bool-cases (ltb o.ref_range.start last.ref_range.end)) [
        | inl meets ↦ rw meets (
            merge_from-Known (joined last o) os
              (
                set_extend-All (Known lefts) last.left_file_lines o.left_file_lines hl gl,
                set_extend-All (Known rights) last.right_file_lines o.right_file_lines hr gr,
              )
              gs)
        | inr apart ↦ rw apart ((hl, hr), merge_from-Known o os (gl, gr) gs)
      ]

  merge_sorted-Known :
      (os : List Overlap) → All KnownOverlap os → All KnownOverlap (merge_sorted os)
  unfolding merge_sorted
  merge_sorted-Known [] h = tt
  merge_sorted-Known (o ∷ os) (h, hs) = merge_from-Known o os h hs

  regions_of_total :
      (os : List Overlap)
      → All KnownOverlap os
      → (found : List ConflictRegion) × (regions_of lefts rights os ≡ some found)
  unfolding regions_of region_of
  regions_of_total [] h = ([], refl)
  regions_of_total (o ∷ os) ((hl, hr), hs) =
      let (ls, p) = lines_at_total lefts o.left_file_lines hl in
      let (rs, q) = lines_at_total rights o.right_file_lines hr in
      let (found, e) = regions_of_total os hs in
      (record { ref_range = o.ref_range; left_lines = ls; right_lines = rs } ∷ found, ground arith)
    where
      lines_at_total :
          (values : List (ℕ × Bytes)) (ks : List ℕ)
          → All (Known values) ks
          → (ls : List Bytes) × (lines_at values ks ≡ some ls)
      lines_at_total values [] h = ([], refl)
      lines_at_total values (k ∷ ks) ((v, e), h) =
          let (ls, p) = lines_at_total values ks h in (trim_end b'\n' v ∷ ls, ground arith)

conflicts_of_total :
    (ls rs : Changes)
    → All Filled ls
    → All Filled rs
    → (found : List ConflictRegion) × (conflicts_of ls rs ≡ some found)
unfolding conflicts_of merge_overlapping_regions
conflicts_of_total ls rs hl hr =
    let lefts = replacement_lines_by_index ls in
    let rights = replacement_lines_by_index rs in
    regions_of_total lefts rights (merge_sorted (sort_by_start (find_clashes ls rs))) (
      merge_sorted-Known lefts rights (sort_by_start (find_clashes ls rs)) (
        sort_by_start-Known lefts rights (find_clashes ls rs) (
          find_clashes-Known lefts rights ls rs (replacement_lines-Known ls hl)
            (replacement_lines-Known rs hr))))

-- Whatever changes the differ gives, the conflicts of three texts are found: no deleted line is
-- without its number, no line that a region shows is missing, and the loop over a script ends.
pub text_conflicts_total :
    (similar : Bytes → Bytes → List Change) (reference left right : Text)
    → (found : List ConflictRegion) × (text_conflicts similar reference left right ≡ some found)
unfolding text_conflicts
text_conflicts_total similar reference left right =
    let (ls, p, hl) = extract_changes_total similar reference.decoded left.decoded in
    let (rs, q, hr) = extract_changes_total similar reference.decoded right.decoded in
    let (found, e) = conflicts_of_total ls rs hl hr in (found, ground arith)
