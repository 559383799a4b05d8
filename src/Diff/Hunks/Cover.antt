-- ===== src/Diff/Hunks/Cover.antt =====
-- Which lines the hunks hold.
use remote_merge.Prelude.{
  not, ℕ, suc, zero, ◌+◌, ◌-◌, ◌≤◌, ◌<◌, min, Bool, false, ◌&&◌, ◌||◌, List, [], ◌∷◌, leb, ltb,
  length, any, ◌≡◌, refl, inl, inr, Bool-cases, arith,
}
use remote_merge.Diff.Script.{DiffLine}
use remote_merge.Diff.Hunks.{
  DiffHunk, Cursor, is_equal, change_indices, advance, hunk_loop, hunks_of, build_hunks,
}

-- The position lies in one of the hunks.
abbrev pub covered : List DiffHunk → ℕ → Bool
covered hunks i = any (λ (h : DiffHunk). leb h.start i && ltb i h.end) hunks

-- The position is at most `context` lines from the changed line `ci`, in a script of `n` lines.
abbrev pub near : ℕ → ℕ → ℕ → ℕ → Bool
near n context i ci = leb (ci - context) i && ltb i (min (ci + context + 1) n)

-- The numbers rise strictly, above `last` and below `n`.
abbrev pub Rises : ℕ → List ℕ → ℕ → Type 0
Rises last [] n = Unit
Rises last (ci ∷ cis) n = (last < ci) × (ci < n) × Rises ci cis n

module _ (lines : List DiffLine) (context : ℕ) where
  hunk_loop-covered :
      (c : Cursor) (hunk_start last : ℕ) (cis : List ℕ) (i : ℕ)
      → hunk_start ≤ last - context
      → last < length lines
      → Rises last cis (length lines)
      → covered
          (hunk_loop lines context c hunk_start (min (last + context + 1) (length lines)) cis)
          i
        ≡ ((leb hunk_start i && ltb i (min (last + context + 1) (length lines)))
            || any (near (length lines) context i) cis)
  unfolding hunk_loop
  hunk_loop-covered c hunk_start last [] i h l r = refl
  hunk_loop-covered c hunk_start last (ci ∷ cis) i h l (above, below, r) =
      elim (Bool-cases (leb (ci - context) (min (last + context + 1) (length lines)))) [
        | inl join ↦
            rw (join, hunk_loop-covered c hunk_start ci cis i (omega arith) below r) (ground arith)
        | inr apart ↦
            rw
              (
                apart,
                hunk_loop-covered (advance lines c hunk_start) (ci - context) ci cis i (omega arith)
                    below r,
              )
              (ground arith)
      ]

change_indices-Rises :
    (last i n : ℕ) (ls : List DiffLine)
    → last < i
    → i + length ls ≤ n
    → Rises last (change_indices ls i) n
unfolding change_indices
change_indices-Rises last i n [] h e = tt
change_indices-Rises last i n (l ∷ ls) h e = elim (Bool-cases (is_equal l.tag)) [
  | inl same ↦ rw same (change_indices-Rises last (suc i) n ls (omega arith) (omega arith))
  | inr differ ↦
      rw differ (h, omega arith, change_indices-Rises i (suc i) n ls (omega arith) (omega arith))
]

-- The numbers rise strictly below `n`.
abbrev pub Rising : List ℕ → ℕ → Type 0
Rising [] n = Unit
Rising (ci ∷ cis) n = (ci < n) × Rises ci cis n

pub change_indices-Rising :
    (i n : ℕ) (ls : List DiffLine) → i + length ls ≤ n → Rising (change_indices ls i) n
unfolding change_indices
change_indices-Rising i n [] e = tt
change_indices-Rising i n (l ∷ ls) e = elim (Bool-cases (is_equal l.tag)) [
  | inl same ↦ rw same (change_indices-Rising (suc i) n ls (omega arith))
  | inr differ ↦
      rw differ (omega arith, change_indices-Rises i (suc i) n ls (omega arith) (omega arith))
]

hunks_of-covered :
    (lines : List DiffLine) (context : ℕ) (cis : List ℕ) (i : ℕ)
    → Rising cis (length lines)
    → covered (hunks_of lines context cis) i ≡ any (near (length lines) context i) cis
unfolding hunks_of
hunks_of-covered lines context [] i r = refl
hunks_of-covered lines context (ci ∷ cis) i (l, r) =
    hunk_loop-covered lines context _ (ci - context) ci cis i (omega arith) l r

-- The hunks hold exactly the lines of the script that are at most `context` lines from a changed
-- line.
pub build_hunks-covered :
    (lines : List DiffLine) (context i : ℕ)
    → covered (build_hunks lines context) i
      ≡ any (near (length lines) context i) (change_indices lines 0)
unfolding build_hunks
build_hunks-covered lines context i =
    hunks_of-covered lines context (change_indices lines 0) i
      (change_indices-Rising 0 (length lines) lines (omega arith))

-- The line at the position is changed.
abbrev pub changed_at : List DiffLine → ℕ → Bool
changed_at [] i = false
changed_at (l ∷ ls) zero = not (is_equal l.tag)
changed_at (l ∷ ls) (suc i) = changed_at ls i

near_earlier :
    (ls : List DiffLine) (k n i : ℕ)
    → k + length ls ≤ n
    → i < k
    → any (near n 0 i) (change_indices ls k) ≡ false
unfolding change_indices
near_earlier [] k n i h e = refl
near_earlier (l ∷ ls) k n i h e = ground (arith, near_earlier ls (suc k) n i)

near_changed :
    (ls : List DiffLine) (k n d i : ℕ)
    → k + length ls ≤ n
    → i ≡ k + d
    → any (near n 0 i) (change_indices ls k) ≡ changed_at ls d
unfolding change_indices
near_changed [] k n d i h e = refl
near_changed (l ∷ ls) k n zero i h e = ground (arith, near_earlier ls (suc k) n i)
near_changed (l ∷ ls) k n (suc d) i h e = ground (arith, near_changed ls (suc k) n d i)

-- Without context the hunks hold exactly the changed lines.
pub build_hunks-changed :
    (lines : List DiffLine) (i : ℕ) → covered (build_hunks lines 0) i ≡ changed_at lines i
build_hunks-changed lines i =
    rw build_hunks-covered (near_changed lines 0 (length lines) i i (omega arith) (omega arith))
