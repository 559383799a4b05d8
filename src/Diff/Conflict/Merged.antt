-- ===== src/Diff/Conflict/Merged.antt =====
-- Sorting the clashes and merging those that overlap: the order of the regions, and which clash
-- lies in which region.
use remote_merge.Prelude.{
  ℕ, ◌≤◌, List, [], ◌∷◌, ltb, leb, All, Some, nat_eq, inl, inr, arith, Bool-cases,
}
use remote_merge.Content.{Range}
use remote_merge.Diff.Conflict.{
  Overlap, sort_in, sort_by_start, joined, merge_from, merge_sorted, merge_overlapping_regions,
}
use remote_merge.Diff.Conflict.Clash.{Inside}
use remote_merge.Diff.Conflict.Covers.{Covers, Covers-refl, Covers-joined, joined-Covers}

-- The ranges from `lo` on are in order, and none overlaps another.
abbrev pub Apart : ℕ → List Range → Type 0
Apart lo [] = Unit
Apart lo (r ∷ rs) = (lo ≤ r.start) × (r.start ≤ r.end) × Apart r.end rs

abbrev pub ranges : List Overlap → List Range
ranges [] = []
ranges (o ∷ os) = o.ref_range ∷ ranges os

abbrev pub Proper : Overlap → Type 0
Proper o = o.ref_range.start ≤ o.ref_range.end

-- The overlaps start at `lo` or later, in order.
SortedFrom : ℕ → List Overlap → Type 0
SortedFrom lo [] = Unit
SortedFrom lo (o ∷ os) = (lo ≤ o.ref_range.start) × SortedFrom o.ref_range.start os

SortedFrom-lower : (lo hi : ℕ) (os : List Overlap) → lo ≤ hi → SortedFrom hi os → SortedFrom lo os
unfolding SortedFrom
SortedFrom-lower lo hi [] h s = tt
SortedFrom-lower lo hi (o ∷ os) h (b, s) = (omega arith, s)

sort_in-SortedFrom :
    (lo : ℕ) (o : Overlap) (ps : List Overlap)
    → lo ≤ o.ref_range.start
    → SortedFrom lo ps
    → SortedFrom lo (sort_in o ps)
unfolding sort_in SortedFrom
sort_in-SortedFrom lo o [] h s = (h, tt)
sort_in-SortedFrom lo o (p ∷ ps) h (b, s) =
    elim (Bool-cases (leb o.ref_range.start p.ref_range.start)) [
      | inl front ↦ rw front (h, (ground arith, s))
      | inr behind ↦ rw behind (b, sort_in-SortedFrom p.ref_range.start o ps (ground arith) s)
    ]

sort_by_start-SortedFrom : (os : List Overlap) → SortedFrom 0 (sort_by_start os)
unfolding sort_by_start SortedFrom
sort_by_start-SortedFrom [] = tt
sort_by_start-SortedFrom (o ∷ os) =
    sort_in-SortedFrom 0 o (sort_by_start os) (omega arith) (sort_by_start-SortedFrom os)

-- A predicate of all overlaps is one of the sorted ones.
sort_in-All :
    (P : Overlap → Type 0) (o : Overlap) (ps : List Overlap) → P o → All P ps → All P (sort_in o ps)
unfolding sort_in
sort_in-All P o [] h hs = (h, tt)
sort_in-All P o (p ∷ ps) h (g, gs) = elim (Bool-cases (leb o.ref_range.start p.ref_range.start)) [
  | inl front ↦ rw front (h, (g, gs))
  | inr behind ↦ rw behind (g, sort_in-All P o ps h gs)
]

sort_by_start-All : (P : Overlap → Type 0) (os : List Overlap) → All P os → All P (sort_by_start os)
unfolding sort_by_start
sort_by_start-All P [] h = tt
sort_by_start-All P (o ∷ os) (h, hs) =
    sort_in-All P o (sort_by_start os) h (sort_by_start-All P os hs)

merge_from-Apart :
    (lo : ℕ) (last : Overlap) (os : List Overlap)
    → lo ≤ last.ref_range.start
    → Proper last
    → All Proper os
    → SortedFrom last.ref_range.start os
    → Apart lo (ranges (merge_from last os))
unfolding merge_from joined SortedFrom
merge_from-Apart lo last [] h p ps s = (h, p, tt)
merge_from-Apart lo last (o ∷ os) h p (q, ps) (b, s) =
    elim (Bool-cases (ltb o.ref_range.start last.ref_range.end)) [
      | inl meets ↦ rw meets (
          merge_from-Apart lo (joined last o) os h (omega arith) ps
            (SortedFrom-lower last.ref_range.start o.ref_range.start os b s))
      | inr apart ↦ rw apart (h, p, merge_from-Apart last.ref_range.end o os (ground arith) q ps s)
    ]

pub merge_overlapping_regions-Apart :
    (os : List Overlap) → All Proper os → Apart 0 (ranges (merge_overlapping_regions os))
unfolding merge_overlapping_regions merge_sorted SortedFrom
merge_overlapping_regions-Apart os h =
    go (sort_by_start os) (sort_by_start-All Proper os h) (sort_by_start-SortedFrom os)
  where
    go : (os : List Overlap) → All Proper os → SortedFrom 0 os → Apart 0 (ranges (merge_sorted os))
    go [] h s = tt
    go (o ∷ os) (h, hs) (b, s) = merge_from-Apart 0 o os b h hs s

-- Some region covers the overlap.
abbrev pub Held : List Overlap → Overlap → Type 0
Held regions o = Some (Covers o) regions

-- Only the first region has to be looked at again where it has grown.
merge_from-Held :
    (last : Overlap) (os : List Overlap) (o : Overlap) → Covers o last → Held (merge_from last os) o
unfolding merge_from
merge_from-Held last [] o h = inl h
merge_from-Held last (p ∷ os) o h = elim (Bool-cases (ltb p.ref_range.start last.ref_range.end)) [
  | inl meets ↦ rw meets (merge_from-Held (joined last p) os o (Covers-joined o last p h))
  | inr apart ↦ rw apart (inl h)
]

-- The regions `whole` hold what the rest of the loop makes of `last` and the overlaps.
merge_from-All-Held :
    (whole : List Overlap) (last : Overlap) (os : List Overlap)
    → ((r : Overlap) → Held (merge_from last os) r → Held whole r)
    → SortedFrom last.ref_range.start os
    → All (Held whole) os
unfolding merge_from joined SortedFrom
merge_from-All-Held whole last [] keep s = tt
merge_from-All-Held whole last (o ∷ os) keep (b, s) =
    elim (Bool-cases (ltb o.ref_range.start last.ref_range.end)) [
      | inl meets ↦
          let keep' : (r : Overlap) → Held (merge_from (joined last o) os) r → Held whole r =
            λ r h. keep r (rw meets h) in
          (
            keep' o (merge_from-Held (joined last o) os o (joined-Covers last o b)),
            merge_from-All-Held whole (joined last o) os keep'
                (SortedFrom-lower last.ref_range.start o.ref_range.start os b s),
          )
      | inr apart ↦
          let keep' : (r : Overlap) → Held (merge_from o os) r → Held whole r =
            λ r h. keep r (rw apart (inr h)) in
          (keep' o (merge_from-Held o os o (Covers-refl o)), merge_from-All-Held whole o os keep' s)
    ]

unsort_in-All :
    (P : Overlap → Type 0) (o : Overlap) (ps : List Overlap) → All P (sort_in o ps) → P o × All P ps
unfolding sort_in
unsort_in-All P o [] h = h
unsort_in-All P o (p ∷ ps) h = elim (Bool-cases (leb o.ref_range.start p.ref_range.start)) [
  | inl front ↦ rw front at h
  | inr behind ↦
      let (g, gs) : P p × All P (sort_in o ps) = rw behind at h in
      let (k, ks) = unsort_in-All P o ps gs in (k, (g, ks))
]

unsort_by_start-All :
    (P : Overlap → Type 0) (os : List Overlap) → All P (sort_by_start os) → All P os
unfolding sort_by_start
unsort_by_start-All P [] h = tt
unsort_by_start-All P (o ∷ os) h =
    let (g, gs) = unsort_in-All P o (sort_by_start os) h in (g, unsort_by_start-All P os gs)

pub merge_overlapping_regions-Held :
    (os : List Overlap) → All (Held (merge_overlapping_regions os)) os
unfolding merge_overlapping_regions merge_sorted SortedFrom
merge_overlapping_regions-Held os =
    unsort_by_start-All _ os (go (sort_by_start os) (sort_by_start-SortedFrom os))
  where
    go : (os : List Overlap) → SortedFrom 0 os → All (Held (merge_sorted os)) os
    go [] s = tt
    go (o ∷ os) (b, s) = (
      merge_from-Held o os o (Covers-refl o),
      merge_from-All-Held (merge_from o os) o os (λ r h. h) s,
    )

-- What holds of every overlap, and of every wider range, holds of every region.
module _ (P : Range → Type 0) (widen : (r q : Range) → Inside r q → P r → P q) where
  merge_from-All :
      (last : Overlap) (os : List Overlap)
      → P last.ref_range
      → All (λ o. P o.ref_range) os
      → All P (ranges (merge_from last os))
  unfolding merge_from joined
  merge_from-All last [] h hs = (h, tt)
  merge_from-All last (o ∷ os) h (g, gs) =
      elim (Bool-cases (ltb o.ref_range.start last.ref_range.end)) [
        | inl meets ↦
            rw meets (merge_from-All (joined last o) os (widen last.ref_range _ (omega arith) h) gs)
        | inr apart ↦ rw apart (h, merge_from-All o os g gs)
      ]

  pub merge_overlapping_regions-All :
      (os : List Overlap)
      → All (λ o. P o.ref_range) os
      → All P (ranges (merge_overlapping_regions os))
  unfolding merge_overlapping_regions merge_sorted
  merge_overlapping_regions-All os h =
      go (sort_by_start os) (sort_by_start-All (λ o. P o.ref_range) os h)
    where
      go :
          (os : List Overlap)
          → All (λ (o : Overlap). P o.ref_range) os
          → All P (ranges (merge_sorted os))
      go [] h = tt
      go (o ∷ os) (h, hs) = merge_from-All o os h hs
