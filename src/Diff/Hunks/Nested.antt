-- ===== src/Diff/Hunks/Nested.antt =====
-- Every hunk to merge lies within one hunk that is shown.
use remote_merge.Prelude.{
  ℕ, suc, ◌≤◌, ◌<◌, true, false, ◌&&◌, List, [], ◌∷◌, leb, ltb, length, All, any, ◌≡◌, refl, sym,
  ◌∙◌, inl, inr, Bool-cases, arith,
}
use remote_merge.Diff.Script.{DiffLine}
use remote_merge.Diff.Hunks.{DiffHunk, change_indices, build_hunks, contains}
use remote_merge.Diff.Hunks.Cover.{covered, near, build_hunks-covered}
use remote_merge.Diff.Hunks.Bounds.{Apart, build_hunks-Apart}

-- Nothing before the first hunk is covered.
Apart-covered : (lo n i : ℕ) (hs : List DiffHunk) → Apart lo hs n → i < lo → covered hs i ≡ false
Apart-covered lo n i [] a h = refl
Apart-covered lo n i (x ∷ hs) (p, q, r, a) h = ground (arith, Apart-covered (suc x.end) n i hs a)

-- Hunks that cover every line of a stretch hold it in one of them.
stretch_in_one :
    (lo n s e : ℕ) (hs : List DiffHunk)
    → Apart lo hs n
    → s < e
    → ((i : ℕ) → s ≤ i → i < e → covered hs i ≡ true)
    → any (λ (h : DiffHunk). leb h.start s && leb e h.end) hs ≡ true
stretch_in_one lo n s e [] a h c =
    let here : false ≡ true = c s (omega arith) h in absurd (ground arith)
stretch_in_one lo n s e (x ∷ hs) (p, q, r, a) h c = elim (Bool-cases (ltb s x.end)) [
  | inl inside ↦
      let starts = c s (omega arith) h in
      let alone = Apart-covered (suc x.end) n s hs a (ground arith) in
      elim (Bool-cases (leb e x.end)) [
        | inl ends ↦ ground arith
        | inr past ↦
            let after = c x.end (ground arith) (ground arith) in
            let gap = Apart-covered (suc x.end) n x.end hs a (omega arith) in absurd (ground arith)
      ]
  | inr beyond ↦
      let later = stretch_in_one (suc x.end) n s e hs a h (λ i p q. ground (arith, c i p q)) in
      ground arith
]

near_wider :
    (n context i : ℕ) (cis : List ℕ)
    → any (near n 0 i) cis ≡ true
    → any (near n context i) cis ≡ true
near_wider n context i [] h = absurd (ground arith)
near_wider n context i (ci ∷ cis) h = ground (arith, near_wider n context i cis)

-- Some hunk that is shown holds the hunk.
Shown : List DiffLine → ℕ → DiffHunk → Type 0
Shown lines context merge =
    any (λ display. contains display merge) (build_hunks lines context) ≡ true

Shown-of_covered :
    (lines : List DiffLine) (context : ℕ) (m : DiffHunk)
    → m.start < m.end
    → ((i : ℕ) → m.start ≤ i → i < m.end → covered (build_hunks lines 0) i ≡ true)
    → Shown lines context m
unfolding Shown contains
Shown-of_covered lines context m h c =
    stretch_in_one 0 (length lines) m.start m.end (build_hunks lines context)
      (build_hunks-Apart lines context).0 h
      (λ i p q.
        build_hunks-covered lines context i
        ∙ near_wider (length lines) context i (change_indices lines 0)
            (sym (build_hunks-covered lines 0 i) ∙ c i p q))

All-Shown :
    (lines : List DiffLine) (context lo n : ℕ) (hs : List DiffHunk)
    → Apart lo hs n
    → ((i : ℕ) → covered hs i ≡ true → covered (build_hunks lines 0) i ≡ true)
    → All (Shown lines context) hs
All-Shown lines context lo n [] a c = tt
All-Shown lines context lo n (h ∷ hs) (p, q, r, a) c = (
  Shown-of_covered lines context h q (λ i s e. c i (ground arith)),
  All-Shown lines context (suc h.end) n hs a (λ i d. c i (ground arith)),
)

-- Every hunk to merge, made without context, lies within a hunk that is shown, whatever the
-- context of those is.
pub build_hunks-Shown :
    (lines : List DiffLine) (context : ℕ)
    → All
        (λ merge. any (λ display. contains display merge) (build_hunks lines context) ≡ true)
        (build_hunks lines 0)
unfolding Shown
build_hunks-Shown lines context =
    All-Shown lines context 0 (length lines) (build_hunks lines 0) (build_hunks-Apart lines 0).0
      (λ i h. h)
