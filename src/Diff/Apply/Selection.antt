-- ===== src/Diff/Apply/Selection.antt =====
-- Selections of hunks that hold every changed line.
use remote_merge.Prelude.{
  ℕ, suc, zero, ◌+◌, ◌<◌, Bool, true, false, List, [], ◌∷◌, some, length, get_elem?, All, any, ◌==◌,
  nat_eq, list_eq, ◌≡◌, refl, ap, ap₂, ◌∙◌, inl, inr, Bool-cases, arith,
}
use remote_merge.Diff.Script.{
  HunkDirection, left_to_right, right_to_left, DiffTag, equal, delete, insert, DiffLine,
}
use remote_merge.Diff.Hunks.{DiffHunk, positions, is_equal}
use remote_merge.Diff.Hunks.Cover.{covered, changed_at}
use remote_merge.Diff.Apply.{kept, cons_kept, selected_lines, in_selected, in_hunk}

kept-const :
    (d : HunkDirection) (a b : Bool) (tag : DiffTag)
    → (is_equal tag ≡ false → a ≡ b)
    → kept d a tag ≡ kept d b tag
unfolding kept is_equal
kept-const left_to_right a b equal h = refl
kept-const right_to_left a b equal h = refl
kept-const d a b delete h = rw (h refl)
kept-const d a b insert h = rw (h refl)

-- Only the test on the changed lines matters.
pub selected_lines-const :
    (d : HunkDirection) (b : Bool) (chosen : ℕ → Bool) (lines : List DiffLine) (k : ℕ)
    → ((m : ℕ) → changed_at lines m ≡ true → chosen (k + m) ≡ b)
    → selected_lines d chosen k lines ≡ selected_lines d (λ _. b) k lines
unfolding selected_lines
selected_lines-const d b chosen [] k h = refl
selected_lines-const d b chosen (l ∷ ls) k h =
    let first : is_equal l.tag ≡ false → chosen k ≡ b =
      λ e. ap chosen (omega arith) ∙ h 0 (ground arith) in
    ap₂ (cons_kept l) (kept-const d (chosen k) b l.tag first)
      (selected_lines-const d b chosen ls (suc k) (λ m e. ap chosen (omega arith) ∙ h (suc m) e))

-- Every number below `n` is selected.
abbrev pub SelectsAll : List ℕ → ℕ → Type 0
SelectsAll selected n = (k : ℕ) → k < n → any (λ m. m == k) selected ≡ true

any-hit :
    (p : ℕ → Bool) (k : ℕ) (ms : List ℕ)
    → p k ≡ true
    → any (λ m. m == k) ms ≡ true
    → any p ms ≡ true
any-hit p k [] h e = absurd (ground arith)
any-hit p k (m ∷ ms) h e = ground (arith, any-hit p k ms)

any-find :
    {A : Type 0} (p : A → Bool) (xs : List A)
    → any p xs ≡ true
    → (k : ℕ) × (x : A) × (k < length xs) × (get_elem? xs k ≡ some x) × (p x ≡ true)
any-find p [] h = absurd (ground arith)
any-find p (x ∷ xs) h = elim (Bool-cases (p x)) [
  | inl hit ↦ (0, x, omega arith, refl, hit)
  | inr miss ↦
      let (k, y, below, at, hit) = any-find p xs (ground arith) in (suc k, y, omega arith, at, hit)
]

-- A test that some item passes is passed at some number, and so by a selection of all numbers.
pub select-any :
    {A : Type 0} (p : A → Bool) (q : ℕ → Bool) (xs : List A) (selected : List ℕ)
    → ((k : ℕ) (x : A) → get_elem? xs k ≡ some x → p x ≡ true → q k ≡ true)
    → SelectsAll selected (length xs)
    → any p xs ≡ true
    → any q selected ≡ true
select-any p q xs selected pass all h =
    let (k, x, below, at, hit) = any-find p xs h in
    any-hit q k selected (pass k x at hit) (all k below)

pub in_selected-all :
    (hunks : List DiffHunk) (selected : List ℕ) (i : ℕ)
    → SelectsAll selected (length hunks)
    → covered hunks i ≡ true
    → in_selected hunks selected i ≡ true
unfolding in_selected in_hunk
in_selected-all hunks selected i all c =
    select-any _ _ hunks selected (λ k h e p. ground arith) all c

pub positions-All :
    {A : Type 0} (test : A → Bool) (xs : List A) (i k : ℕ)
    → All (λ x. test x ≡ true) xs
    → k < length xs
    → any (λ m. m == (i + k)) (positions test i xs) ≡ true
unfolding positions
positions-All test [] i k h l = absurd (omega arith)
positions-All test (x ∷ xs) i zero (h, hs) l = ground arith
positions-All test (x ∷ xs) i (suc k) (h, hs) l = ground (arith, positions-All test xs (suc i) k hs)
