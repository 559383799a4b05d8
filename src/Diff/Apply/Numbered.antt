-- ===== src/Diff/Apply/Numbered.antt =====
-- The lines that a merge keeps, as stretches of the lines of one text.
use remote_merge.Prelude.{
  ℕ, suc, zero, ◌+◌, ◌≤◌, ◌<◌, true, false, List, [], ◌∷◌, Option, some, length, length-drop, drop,
  take-length_le, get_elem?, nat_eq, list_eq, ◌≡◌, refl, ap, ◌∙◌, arith,
}
use remote_merge.Content.Interpreted.{WellFormed}
use remote_merge.Text.{Bytes}
use remote_merge.Content.{Range, Text, raw_line}
use remote_merge.Content.Lines.{concat_lines, concat_lines-Tiles, line_ranges-Tiles}
use remote_merge.Diff.Script.{
  left_to_right, right_to_left, equal, Change, number_lines, old_step, new_step,
}
use remote_merge.Diff.Apply.{selected_lines, append?, concat_selected}

-- The body of the text: its bytes after the BOM.
abbrev pub body : Text → Bytes
body t = drop t.bom_len t.raw

-- `n` lines of the text from line `j` on.
pub raws : Text → ℕ → ℕ → Option Bytes
raws t j zero = some []
raws t j (suc n) = append? (raw_line t j) (raws t (suc j) n)

get_elem?-drop :
    (rs : List Range) (j : ℕ)
    → j < length rs
    → (r : Range) × (get_elem? rs j ≡ some r) × (drop j rs ≡ r ∷ drop (suc j) rs)
get_elem?-drop [] j h = absurd (omega arith)
get_elem?-drop (r ∷ rs) zero h = (r, refl, refl)
get_elem?-drop (r ∷ rs) (suc j) h = get_elem?-drop rs j (omega arith)

drop_all : {A : Type 0} (xs : List A) (n : ℕ) → length xs ≤ n → drop n xs ≡ []
drop_all [] zero h = refl
drop_all [] (suc n) h = refl
drop_all (x ∷ xs) zero h = absurd (omega arith)
drop_all (x ∷ xs) (suc n) h = drop_all xs n (omega arith)

raws-eq :
    (t : Text) (n j : ℕ)
    → j + n ≡ length t.raw_lines
    → raws t j n ≡ some (concat_lines t.raw (drop j t.raw_lines))
unfolding raws raw_line append?
raws-eq t zero j h = rw (drop_all t.raw_lines j (omega arith))
raws-eq t (suc n) j h =
    let (r, got, rest) = get_elem?-drop t.raw_lines j (omega arith) in
    ground (arith, raws-eq t n (suc j) (omega arith))

pub raws_whole : (t : Text) → WellFormed t → raws t 0 (length t.raw_lines) ≡ some (body t)
raws_whole t w =
    raws-eq t (length t.raw_lines) 0 (omega arith)
    ∙ ap some (
        rw
          (
            w.lines_of_raw,
            concat_lines-Tiles t.raw t.bom_len (length t.raw) _
                (line_ranges-Tiles t.raw t.bom_len w.bom_inside),
          )
          (take-length_le _ (body t) (omega (arith, length-drop t.bom_len t.raw))))

-- How many lines of the old and of the new text the changes go through.
abbrev pub olds : List Change → ℕ
olds [] = 0
olds (c ∷ cs) = old_step c.tag (olds cs)

abbrev pub news : List Change → ℕ
news [] = 0
news (c ∷ cs) = new_step c.tag (news cs)

-- The texts write every line that the changes leave equal with the same bytes, from line `i` of
-- the old and line `j` of the new text on.
abbrev pub SameBytes : Text → Text → List Change → ℕ → ℕ → Type 0
SameBytes old new [] i j = Unit
SameBytes old new (c ∷ cs) i j =
    (c.tag ≡ equal → raw_line old i ≡ raw_line new j)
    × SameBytes old new cs (old_step c.tag i) (new_step c.tag j)

module _ (old new : Text) where
  pub keep_new :
      (cs : List Change) (k i j : ℕ)
      → concat_selected old new (selected_lines left_to_right (λ _. false) k (number_lines cs i j))
        ≡ raws new j (news cs)
  unfolding concat_selected selected_lines number_lines raws
  keep_new [] k i j = refl
  keep_new (c ∷ cs) k i j = ground (
    arith,
    keep_new cs (suc k) (suc i) (suc j),
    keep_new cs (suc k) (suc i) j,
    keep_new cs (suc k) i (suc j),
  )

  pub keep_old :
      (cs : List Change) (k i j : ℕ)
      → concat_selected old new (selected_lines right_to_left (λ _. false) k (number_lines cs i j))
        ≡ raws old i (olds cs)
  unfolding concat_selected selected_lines number_lines raws
  keep_old [] k i j = refl
  keep_old (c ∷ cs) k i j = ground (
    arith,
    keep_old cs (suc k) (suc i) (suc j),
    keep_old cs (suc k) (suc i) j,
    keep_old cs (suc k) i (suc j),
  )

  pub take_old :
      (cs : List Change) (k i j : ℕ)
      → SameBytes old new cs i j
      → concat_selected old new (selected_lines left_to_right (λ _. true) k (number_lines cs i j))
        ≡ raws old i (olds cs)
  unfolding concat_selected selected_lines number_lines raws
  take_old [] k i j s = refl
  take_old (c ∷ cs) k i j (s, ss) = ground (
    arith,
    take_old cs (suc k) (suc i) (suc j),
    take_old cs (suc k) (suc i) j,
    take_old cs (suc k) i (suc j),
  )

  pub take_new :
      (cs : List Change) (k i j : ℕ)
      → SameBytes old new cs i j
      → concat_selected old new (selected_lines right_to_left (λ _. true) k (number_lines cs i j))
        ≡ raws new j (news cs)
  unfolding concat_selected selected_lines number_lines raws
  take_new [] k i j s = refl
  take_new (c ∷ cs) k i j (s, ss) = ground (
    arith,
    take_new cs (suc k) (suc i) (suc j),
    take_new cs (suc k) (suc i) j,
    take_new cs (suc k) i (suc j),
  )
