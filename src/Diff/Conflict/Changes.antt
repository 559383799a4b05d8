-- ===== src/Diff/Conflict/Changes.antt =====
-- The loop that takes the changes from a script always ends with them, and each change has a line
-- for every number of its set.
use remote_merge.Prelude.{
  ℕ, suc, zero, ◌+◌, ◌≤◌, ◌<◌, Bool, true, List, [], ◌∷◌, map, Option, none, some, ◌==◌, nat_eq,
  list_eq, ltb, length, All, ◌≡◌, refl, arith, inl, inr, Bool-cases,
}
use remote_merge.Text.{Bytes}
use remote_merge.Diff.Script.{
  DiffTag, equal, delete, insert, DiffLine, Change, number_lines, old_step, new_step,
}
use remote_merge.Diff.Hunks.{build_script}
use remote_merge.Diff.Conflict.{
  ChangeInfo, Changes, set_insert, put, is_delete, is_insert, run, after_run, add_index,
  new_indices, change_of, insert_at, extract_from, extract_changes,
}

-- A line that is deleted has its number in the old text.
abbrev pub Numbered : DiffLine → Type 0
Numbered l = l.tag ≡ delete → (i : ℕ) × (l.old_index ≡ some i)

number_lines-Numbered_step :
    (t : DiffTag) (v : Bytes) (cs : List Change) (o n : ℕ)
    → All Numbered (number_lines cs (old_step t o) (new_step t n))
    → All Numbered (number_lines (record { tag = t; value = v } ∷ cs) o n)
unfolding number_lines
number_lines-Numbered_step equal v cs o n h = (λ p. absurd (ground arith), h)
number_lines-Numbered_step delete v cs o n h = (λ p. (o, refl), h)
number_lines-Numbered_step insert v cs o n h = (λ p. absurd (ground arith), h)

pub number_lines-Numbered : (cs : List Change) (o n : ℕ) → All Numbered (number_lines cs o n)
unfolding number_lines
number_lines-Numbered [] o n = tt
number_lines-Numbered (c ∷ cs) o n =
    number_lines-Numbered_step c.tag c.value cs o n
      (number_lines-Numbered cs (old_step c.tag o) (new_step c.tag n))

after_run-All :
    (P : DiffLine → Type 0) (test : DiffLine → Bool) (ls : List DiffLine)
    → All P ls
    → All P (after_run test ls)
unfolding after_run
after_run-All P test [] h = tt
after_run-All P test (l ∷ ls) (h, hs) = elim (Bool-cases (test l)) [
  | inl t ↦ rw t (after_run-All P test ls hs)
  | inr t ↦ rw t (h, hs)
]

after_run-shorter :
    (test : DiffLine → Bool) (ls : List DiffLine) → length (after_run test ls) ≤ length ls
unfolding after_run
after_run-shorter test [] = omega arith
after_run-shorter test (l ∷ ls) = ground (arith, after_run-shorter test ls)

-- The numbers of the set are no more than the lines of the change.
abbrev pub Filled : ℕ × ChangeInfo → Type 0
Filled (k, info) = length info.file_lines ≤ length info.replacement

set_insert-length : (k : ℕ) (js : List ℕ) → length (set_insert k js) ≤ suc (length js)
unfolding set_insert
set_insert-length k [] = omega arith
set_insert-length k (j ∷ js) = ground (arith, set_insert-length k js)

add_index-length : (o : Option ℕ) (js : List ℕ) → length (add_index o js) ≤ suc (length js)
unfolding add_index
add_index-length none js = omega arith
add_index-length (some k) js = set_insert-length k js

new_indices-length :
    (ls : List DiffLine) (js : List ℕ) → length (new_indices ls js) ≤ length ls + length js
unfolding new_indices
new_indices-length [] js = omega arith
new_indices-length (l ∷ ls) js =
    omega (arith, new_indices-length ls (add_index l.new_index js), add_index-length l.new_index js)

pub length-map : (ls : List DiffLine) → length (map (λ (l : DiffLine). l.value) ls) ≡ length ls
length-map [] = refl
length-map (l ∷ ls) = omega (arith, length-map ls)

change_of-Filled : (k n : ℕ) (ls : List DiffLine) → Filled (k, change_of n ls)
unfolding change_of
change_of-Filled k n ls = omega (arith, new_indices-length ls [], length-map ls)

put-Filled :
    (k : ℕ) (info : ChangeInfo) (cs : Changes)
    → Filled (k, info)
    → All Filled cs
    → All Filled (put k info cs)
unfolding put
put-Filled k info [] h hs = (h, tt)
put-Filled k info ((j, old) ∷ rest) h (g, hs) = elim (Bool-cases (ltb k j)) [
  | inl below ↦ rw below (h, (g, hs))
  | inr not_below ↦ elim (Bool-cases (k == j)) [
    | inl here ↦ rw (not_below, here) (h, hs)
    | inr above ↦ rw (not_below, above) (g, put-Filled k info rest h hs)
  ]
]

-- A line by line walk over a run of lines, the first of which passes the test.
after_run-behind :
    (test : DiffLine → Bool) (l : DiffLine) (ls : List DiffLine)
    → test l ≡ true
    → length (after_run test (l ∷ ls)) ≤ length ls
unfolding after_run
after_run-behind test l ls h = rw h (after_run-shorter test ls)

abbrev Ends : ℕ → List DiffLine → List DiffLine → Changes → Type 0
Ends fuel before lines changes =
    (found : Changes) × (extract_from fuel before lines changes ≡ some found) × All Filled found

-- The turn that starts at a line with the tag, from what the later turns do.
extract_from-turn :
    (fuel : ℕ) (t : DiffTag) (v : Bytes) (o n : Option ℕ) (before ls : List DiffLine)
    (changes : Changes)
    → length ls < fuel
    → All Numbered (record { tag = t; value = v; old_index = o; new_index = n } ∷ ls)
    → All Filled changes
    → ((b : List DiffLine) (rest : List DiffLine) (cs : Changes)
        → length rest ≤ length ls
        → All Numbered rest
        → All Filled cs
        → Ends fuel b rest cs)
    → Ends
        (suc fuel)
        before
        (record { tag = t; value = v; old_index = o; new_index = n } ∷ ls)
        changes
unfolding extract_from
extract_from-turn fuel equal v o n before ls changes enough (l, rest) f later =
    later _ ls changes (omega arith) rest f
extract_from-turn fuel delete v none n before ls changes enough (l, rest) f later =
    absurd (let (i, e) = l refl in ground arith)
extract_from-turn fuel delete v (some r) n before ls changes enough (l, rest) f later =
    let behind = after_run is_delete ls in
    later _ _ _ (omega (arith, after_run-shorter is_delete ls, after_run-shorter is_insert behind))
      (after_run-All Numbered is_insert behind (after_run-All Numbered is_delete ls rest))
      (put-Filled r _ changes
        (change_of-Filled r (suc (length (run is_delete ls))) (run is_insert behind)) f)
extract_from-turn fuel insert v o n before ls changes enough (l, rest) f later =
    later _ _ _ (after_run-shorter is_insert ls) (after_run-All Numbered is_insert ls rest) (
      put-Filled (insert_at before) _ changes
        (change_of-Filled (insert_at before) 0
          (run is_insert (record { tag = insert; value = v; old_index = o; new_index = n } ∷ ls)))
        f)

extract_from_total :
    (fuel : ℕ) (before lines : List DiffLine) (changes : Changes)
    → length lines < fuel
    → All Numbered lines
    → All Filled changes
    → Ends fuel before lines changes
unfolding extract_from
extract_from_total zero before lines changes enough n f = absurd (omega arith)
extract_from_total (suc fuel) before [] changes enough n f = (changes, refl, f)
extract_from_total (suc fuel) before (l ∷ ls) changes enough n f =
    extract_from-turn fuel l.tag l.value l.old_index l.new_index before ls changes (omega arith) n f
      (λ b rest cs short. extract_from_total fuel b rest cs (omega arith))

pub extract_changes_total :
    (similar : Bytes → Bytes → List Change) (old new : Bytes)
    → (found : Changes) × (extract_changes (build_script similar old new) ≡ some found)
      × All Filled found
unfolding extract_changes build_script
extract_changes_total similar old new = elim (Bool-cases (old == new)) [
  | inl e ↦ rw e ([], refl, tt)
  | inr e ↦ rw e (
      extract_from_total (suc (length (number_lines (similar old new) 0 0))) []
        (number_lines (similar old new) 0 0) [] (omega arith)
        (number_lines-Numbered (similar old new) 0 0) tt)
]
