-- ===== src/Diff/Conflict/Regions.antt =====
-- The ranges of the regions that a three-way comparison reports.
use remote_merge.Prelude.{
  ℕ, true, List, [], ◌∷◌, some, All, All-append, Some, Some-map, All-map, All-every, All-split, ◌≡◌,
  ap, inl, inr, arith, Option-cases, Bool-cases,
}
use remote_merge.Text.{Bytes}
use remote_merge.Content.{Range}
use remote_merge.Diff.Conflict.{
  ConflictRegion, Overlap, ChangeInfo, Changes, clash, overlap_of, clashes_with, find_clashes,
  merge_overlapping_regions, replacement_lines_by_index, lines_at, region_of, regions_of,
  conflicts_of,
}
use remote_merge.Diff.Conflict.Clash.{Clash, Inside, hull, clash-Clash, Clash-clash}
use remote_merge.Diff.Conflict.Merged.{
  Apart, Proper, Held, ranges, merge_overlapping_regions-Apart, merge_overlapping_regions-Held,
  merge_overlapping_regions-All,
}

abbrev pub ref_ranges : List ConflictRegion → List Range
ref_ranges [] = []
ref_ranges (r ∷ rs) = r.ref_range ∷ ref_ranges rs

regions_of-ranges :
    (lefts rights : List (ℕ × Bytes)) (os : List Overlap) (found : List ConflictRegion)
    → regions_of lefts rights os ≡ some found
    → ref_ranges found ≡ ranges os
unfolding regions_of region_of
regions_of-ranges lefts rights [] found h = let e : found ≡ [] = ground arith in rw e
regions_of-ranges lefts rights (o ∷ os) found h =
    elim (Option-cases (lines_at lefts o.left_file_lines)) [
      | inl p ↦ absurd (ground arith)
      | inr (ls, p) ↦ elim (Option-cases (lines_at rights o.right_file_lines)) [
        | inl q ↦ absurd (ground arith)
        | inr (rs, q) ↦ elim (Option-cases (regions_of lefts rights os)) [
          | inl r ↦ absurd (ground arith)
          | inr (rest, r) ↦
              let e : found
                  ≡ record { ref_range = o.ref_range; left_lines = ls; right_lines = rs } ∷ rest =
                ground arith in
              rw e (
                ap (λ (xs : List Range). o.ref_range ∷ xs)
                  (regions_of-ranges lefts rights os rest r))
        ]
      ]
    ]

conflicts_of-ranges :
    (lefts rights : Changes) (found : List ConflictRegion)
    → conflicts_of lefts rights ≡ some found
    → ref_ranges found ≡ ranges (merge_overlapping_regions (find_clashes lefts rights))
unfolding conflicts_of
conflicts_of-ranges lefts rights found h =
    regions_of-ranges (replacement_lines_by_index lefts) (replacement_lines_by_index rights)
      (merge_overlapping_regions (find_clashes lefts rights)) found h

module _ (P : Overlap → Type 0) where
  -- What holds of the overlap of any two changes that clash holds of every overlap found.
  clashes_with-All :
      (Q : ℕ × ChangeInfo → Type 0) (l : ℕ × ChangeInfo) (rs : Changes)
      → ((r : ℕ × ChangeInfo) → Q r → clash l r ≡ true → P (overlap_of l r))
      → All Q rs
      → All P (clashes_with l rs)
  unfolding clashes_with
  clashes_with-All Q l [] h q = tt
  clashes_with-All Q l (r ∷ rs) h (q, qs) = elim (Bool-cases (clash l r)) [
    | inl e ↦ rw e (h r q e, clashes_with-All Q l rs h qs)
    | inr e ↦ rw e (clashes_with-All Q l rs h qs)
  ]

  -- And the other way.
  clashes_with-each :
      (l : ℕ × ChangeInfo) (rs : Changes)
      → All P (clashes_with l rs)
      → All (λ r. clash l r ≡ true → P (overlap_of l r)) rs
  unfolding clashes_with
  clashes_with-each l [] h = tt
  clashes_with-each l (r ∷ rs) h = elim (Bool-cases (clash l r)) [
    | inl e ↦
        let (g, gs) : P (overlap_of l r) × All P (clashes_with l rs) = rw e at h in
        (λ _. g, clashes_with-each l rs gs)
    | inr e ↦
        let gs : All P (clashes_with l rs) = rw e at h in
        (λ p. absurd (ground arith), clashes_with-each l rs gs)
  ]

find_clashes-Proper : (lefts rights : Changes) → All Proper (find_clashes lefts rights)
unfolding find_clashes
find_clashes-Proper [] rights = tt
find_clashes-Proper (l ∷ ls) rights =
    All-append Proper (clashes_with l rights) (find_clashes ls rights)
      (clashes_with-All Proper (λ r. Unit) l rights (λ r q e. omega arith)
        (All-every (λ r. Unit) (λ r. tt) rights))
      (find_clashes-Proper ls rights)

find_clashes-each :
    (P : Overlap → Type 0) (lefts rights : Changes)
    → All P (find_clashes lefts rights)
    → All (λ l. All (λ r. clash l r ≡ true → P (overlap_of l r)) rights) lefts
unfolding find_clashes
find_clashes-each P [] rights h = tt
find_clashes-each P (l ∷ ls) rights h =
    let (g, gs) = All-split P (clashes_with l rights) (find_clashes ls rights) h in
    (clashes_with-each P l rights g, find_clashes-each P ls rights gs)

-- Every item is some item of the list.
Some-each :
    {A : Type 0} (R : A → A → Type 0) (xs : List A) → All (λ x. R x x → Some (λ y. R y x) xs) xs
Some-each R [] = tt
Some-each R (x ∷ xs) = (λ p. inl p, All-map _ _ (λ y later p. inr (later p)) xs (Some-each R xs))

-- Some pair of changes within the range clashes.
abbrev pub HoldsClash : Changes → Changes → Range → Type 0
HoldsClash lefts rights q = Some (λ l. Some (λ r. Clash l r × Inside (hull l r) q) rights) lefts

find_clashes-HoldsClash :
    (lefts rights : Changes)
    → All (λ o. HoldsClash lefts rights o.ref_range) (find_clashes lefts rights)
unfolding find_clashes
find_clashes-HoldsClash [] rights = tt
find_clashes-HoldsClash (l ∷ ls) rights =
    All-append (λ o. HoldsClash (l ∷ ls) rights o.ref_range) (clashes_with l rights)
      (find_clashes ls rights)
      (clashes_with-All (λ o. HoldsClash (l ∷ ls) rights o.ref_range)
        (λ r.
          Clash l r × Inside (hull l r) (hull l r)
          → Some (λ p. Clash l p × Inside (hull l p) (hull l r)) rights)
        l rights (λ r some_of e. inl (some_of (clash-Clash l r e, omega arith)))
        (Some-each (λ p r. Clash l p × Inside (hull l p) (hull l r)) rights))
      (All-map _ _ (λ o h. inr h) (find_clashes ls rights) (find_clashes-HoldsClash ls rights))

HoldsClash-wider :
    (lefts rights : Changes) (r q : Range)
    → Inside r q
    → HoldsClash lefts rights r
    → HoldsClash lefts rights q
HoldsClash-wider lefts rights r q h =
    Some-map _ _ (λ l. Some-map _ _ (λ c (clash, inside). (clash, omega arith)) rights) lefts

-- Two changes that clash are covered by some region.
pub find_clashes-Held :
    (lefts rights : Changes)
    → All
        (λ l.
          All
            (λ r.
              Clash l r
              → Held (merge_overlapping_regions (find_clashes lefts rights)) (overlap_of l r))
            rights)
        lefts
find_clashes-Held lefts rights =
    All-map _ _ (λ l. All-map _ _ (λ r held c. held (Clash-clash l r c)) rights) lefts
      (find_clashes-each (Held (merge_overlapping_regions (find_clashes lefts rights))) lefts rights
        (merge_overlapping_regions-Held (find_clashes lefts rights)))

module _ (lefts rights : Changes) (found : List ConflictRegion)
    (reported : conflicts_of lefts rights ≡ some found) where
  -- The regions reported are in the order of the reference, and no two share a line of it.
  pub conflicts_of-Apart : Apart 0 (ref_ranges found)
  conflicts_of-Apart = rw (conflicts_of-ranges lefts rights found reported) (
      merge_overlapping_regions-Apart (find_clashes lefts rights)
        (find_clashes-Proper lefts rights))

  -- Every region reported holds a change of the left and a change of the right that touch a common
  -- place of the reference and put different lines there.
  pub conflicts_of-founded : All (HoldsClash lefts rights) (ref_ranges found)
  conflicts_of-founded = rw (conflicts_of-ranges lefts rights found reported) (
      merge_overlapping_regions-All (HoldsClash lefts rights) (HoldsClash-wider lefts rights)
        (find_clashes lefts rights) (find_clashes-HoldsClash lefts rights))
