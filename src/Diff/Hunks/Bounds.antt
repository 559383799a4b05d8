-- ===== src/Diff/Hunks/Bounds.antt =====
-- The order of the hunks, and the line numbers that they start at.
use remote_merge.Prelude.{
  ℕ, suc, ◌+◌, ◌-◌, ◌≤◌, ◌<◌, min, List, [], ◌∷◌, ◌++◌, leb, length, take, drop, take-take-drop,
  All, ◌≡◌, refl, sym, ap, ◌∙◌, inl, inr, Bool-cases, arith,
}
use remote_merge.Diff.Script.{DiffLine, old_step, new_step}
use remote_merge.Diff.Hunks.{
  DiffHunk, Cursor, change_indices, advance, hunk_loop, hunks_of, build_hunks, count_old, count_new,
}
use remote_merge.Diff.Hunks.Cover.{Rises, Rising, change_indices-Rising}

-- The hunks from position `lo` on are in order, not empty, within the first `n` lines, and a line
-- of no hunk stands between any two.
abbrev pub Apart : ℕ → List DiffHunk → ℕ → Type 0
Apart lo [] n = Unit
Apart lo (h ∷ hs) n = (lo ≤ h.start) × (h.start < h.end) × (h.end ≤ n) × Apart (suc h.end) hs n

-- The hunk starts at the numbers that the lines above it leave for the old and the new text.
abbrev pub StartsRight : List DiffLine → DiffHunk → Type 0
StartsRight lines h =
    (h.old_start ≡ count_old (take h.start lines) 0)
    × (h.new_start ≡ count_new (take h.start lines) 0)

module _ (lines : List DiffLine) (context : ℕ) where
  hunk_loop-Apart :
      (c : Cursor) (hunk_start last lo : ℕ) (cis : List ℕ)
      → lo ≤ hunk_start
      → hunk_start ≤ last - context
      → last < length lines
      → Rises last cis (length lines)
      → Apart lo
          (hunk_loop lines context c hunk_start (min (last + context + 1) (length lines)) cis)
          (length lines)
  unfolding hunk_loop
  hunk_loop-Apart c hunk_start last lo [] b h l r = omega arith
  hunk_loop-Apart c hunk_start last lo (ci ∷ cis) b h l (above, below, r) =
      elim (Bool-cases (leb (ci - context) (min (last + context + 1) (length lines)))) [
        | inl join ↦ rw join (hunk_loop-Apart c hunk_start ci lo cis b (omega arith) below r)
        | inr apart ↦ rw apart (
          b,
          omega arith,
          omega arith,
          hunk_loop-Apart (advance lines c hunk_start) (ci - context) ci
              (suc (min (last + context + 1) (length lines))) cis (ground arith) (omega arith) below
              r,
        )
      ]

count_old-append :
    (xs ys : List DiffLine) (n : ℕ) → count_old (xs ++ ys) n ≡ count_old ys (count_old xs n)
unfolding count_old
count_old-append [] ys n = refl
count_old-append (x ∷ xs) ys n = count_old-append xs ys (old_step x.tag n)

count_new-append :
    (xs ys : List DiffLine) (n : ℕ) → count_new (xs ++ ys) n ≡ count_new ys (count_new xs n)
unfolding count_new
count_new-append [] ys n = refl
count_new-append (x ∷ xs) ys n = count_new-append xs ys (new_step x.tag n)

-- The cursor holds the numbers of its position.
abbrev CursorRight : List DiffLine → Cursor → Type 0
CursorRight lines c =
    (c.old_start ≡ count_old (take c.position lines) 0)
    × (c.new_start ≡ count_new (take c.position lines) 0)

advance-CursorRight :
    (lines : List DiffLine) (c : Cursor) (start : ℕ)
    → c.position ≤ start
    → CursorRight lines c
    → CursorRight lines (advance lines c start)
unfolding advance
advance-CursorRight lines c start h (o, n) =
    let whole : take start lines
        ≡ take c.position lines ++ take (start - c.position) (drop c.position lines) =
      sym (
        take-take-drop c.position (start - c.position) lines
        ∙ ap (λ (k : ℕ). take k lines) (omega arith)) in
    (rw (whole, count_old-append, o), rw (whole, count_new-append, n))

advance-position :
    (lines : List DiffLine) (c : Cursor) (start next : ℕ)
    → start ≤ next
    → (advance lines c start).position ≤ next
unfolding advance
advance-position lines c start next h = h

module _ (lines : List DiffLine) (context : ℕ) where
  hunk_loop-StartsRight :
      (c : Cursor) (hunk_start hunk_end last : ℕ) (cis : List ℕ)
      → c.position ≤ hunk_start
      → hunk_start ≤ last - context
      → Rises last cis (length lines)
      → CursorRight lines c
      → All (StartsRight lines) (hunk_loop lines context c hunk_start hunk_end cis)
  unfolding hunk_loop
  hunk_loop-StartsRight c hunk_start hunk_end last [] p h r right =
      (advance-CursorRight lines c hunk_start p right, tt)
  hunk_loop-StartsRight c hunk_start hunk_end last (ci ∷ cis) p h (above, below, r) right =
      elim (Bool-cases (leb (ci - context) hunk_end)) [
        | inl join ↦ rw join (hunk_loop-StartsRight c hunk_start _ ci cis p (omega arith) r right)
        | inr apart ↦
            let moved = advance-CursorRight lines c hunk_start p right in
            rw apart (
              moved,
              hunk_loop-StartsRight (advance lines c hunk_start) (ci - context) _ ci cis
                  (advance-position lines c hunk_start (ci - context) (omega arith)) (omega arith) r
                  moved,
            )
      ]

  hunks_of-Apart :
      (cis : List ℕ)
      → Rising cis (length lines)
      → Apart 0 (hunks_of lines context cis) (length lines)
  unfolding hunks_of
  hunks_of-Apart [] r = tt
  hunks_of-Apart (ci ∷ cis) (l, r) =
      hunk_loop-Apart lines context _ (ci - context) ci 0 cis (omega arith) (omega arith) l r

  hunks_of-StartsRight :
      (cis : List ℕ)
      → Rising cis (length lines)
      → All (StartsRight lines) (hunks_of lines context cis)
  unfolding hunks_of count_old count_new
  hunks_of-StartsRight [] r = tt
  hunks_of-StartsRight (ci ∷ cis) (l, r) =
      hunk_loop-StartsRight _ (ci - context) _ ci cis (omega arith) (omega arith) r (refl, refl)

  -- The hunks are in order, none is empty, they end within the script, and a line of no hunk
  -- stands between any two. Each starts at the numbers that the lines above it leave for the old
  -- and the new text.
  pub build_hunks-Apart :
      Apart 0 (build_hunks lines context) (length lines)
      × All (StartsRight lines) (build_hunks lines context)
  unfolding build_hunks
  build_hunks-Apart =
      let r = change_indices-Rising 0 (length lines) lines (omega arith) in
      (hunks_of-Apart (change_indices lines 0) r, hunks_of-StartsRight (change_indices lines 0) r)
