-- ===== src/Diff/Conflict/Numbering.antt =====
-- The numbers of the lines that the changes of a script insert: each change has those of its own
-- lines, one after the other, and they ascend from change to change.
use remote_merge.Prelude.{
  ℕ, suc, zero, ◌+◌, ◌≤◌, List, [], ◌∷◌, Option, none, some, ◌==◌, nat_eq, list_eq, length, ◌≡◌,
  refl, arith, inl, inr, Bool-cases,
}
use remote_merge.Text.{Bytes}
use remote_merge.Diff.Script.{DiffTag, equal, delete, insert, DiffLine, Change, number_lines}
use remote_merge.Diff.Hunks.{build_script}
use remote_merge.Diff.Conflict.{
  Changes, put, is_delete, is_insert, run, after_run, new_indices, change_of, insert_at, passed,
  extract_from, extract_changes,
}
use remote_merge.Diff.Conflict.Changes.{length-map}
use remote_merge.Diff.Conflict.Order.{count_up, InOrder, InOrder-wider, put-InOrder}
use remote_merge.Diff.Conflict.Passed.{
  NumberedFrom, number_lines-NumberedFrom, deletes_passed, inserts_passed,
}

change_of-count_up :
    (ls before : List DiffLine) (o n count : ℕ)
    → insert_at before ≡ o
    → NumberedFrom o n ls
    → (change_of count (run is_insert ls)).file_lines
      ≡ count_up n (length (change_of count (run is_insert ls)).replacement)
unfolding change_of count_up
change_of-count_up ls before o n count p h =
    let (x, y, z) = inserts_passed ls before o n p h in
    let e : 0 + length (run is_insert ls) ≡ length (run is_insert ls) = omega arith in
    let numbers : new_indices (run is_insert ls) [] ≡ count_up n (length (run is_insert ls)) =
      rw e at (z n 0 (omega arith)) in
    rw (length-map (run is_insert ls)) numbers

replacement_bound :
    (count : ℕ) (inserted : List DiffLine) (n : ℕ)
    → n + length (change_of count inserted).replacement ≤ n + length inserted
unfolding change_of
replacement_bound count inserted n = omega (arith, length-map inserted)

-- A change with the inserted lines, put where the loop stands.
put-change_of :
    (ls before : List DiffLine) (changes : Changes) (k o o' n count : ℕ)
    → k ≡ o
    → o ≤ o'
    → insert_at before ≡ o'
    → NumberedFrom o' n ls
    → InOrder 0 0 changes o n
    → InOrder 0 0
        (put k (change_of count (run is_insert ls)) changes)
        o'
        (n + length (run is_insert ls))
put-change_of ls before changes k o o' n count e b p h c =
    let info = change_of count (run is_insert ls) in
    rw e (
      InOrder-wider 0 0 (put o info changes) o (n + length info.replacement) o'
        (n + length (run is_insert ls)) b (replacement_bound count (run is_insert ls) n)
        (put-InOrder 0 0 changes o n info (omega arith)
          (change_of-count_up ls before o' n count p h) c))

abbrev pub Ordered : Changes → Type 0
Ordered cs = (o : ℕ) × (n : ℕ) × InOrder 0 0 cs o n

-- The turn that starts at a line with the tag, from what the later turns do.
extract_from-turn :
    (fuel : ℕ) (t : DiffTag) (v : Bytes) (i j : Option ℕ) (ls before : List DiffLine)
    (changes found : Changes) (o n : ℕ)
    → insert_at before ≡ o
    → NumberedFrom o n (record { tag = t; value = v; old_index = i; new_index = j } ∷ ls)
    → InOrder 0 0 changes o n
    → ((b rest : List DiffLine) (cs : Changes) (o' n' : ℕ)
        → insert_at b ≡ o'
        → NumberedFrom o' n' rest
        → InOrder 0 0 cs o' n'
        → extract_from fuel b rest cs ≡ some found
        → Ordered found)
    → extract_from
        (suc fuel)
        before
        (record { tag = t; value = v; old_index = i; new_index = j } ∷ ls)
        changes
      ≡ some found
    → Ordered found
unfolding extract_from
extract_from-turn fuel equal v i j ls before changes found o n p (q, h) c later e =
    let at : insert_at (record { tag = equal; value = v; old_index = i; new_index = j } ∷ before)
        ≡ suc o =
      rw q (omega arith) in
    later _ ls changes (suc o) (suc n) at h
      (InOrder-wider 0 0 changes o n (suc o) (suc n) (omega arith) (omega arith) c) e
extract_from-turn fuel delete v none j ls before changes found o n p (q, h) c later e =
    absurd (ground arith)
extract_from-turn fuel delete v (some r) j ls before changes found o n p (q, h) c later e =
    let lines = record { tag = delete; value = v; old_index = some r; new_index = j } ∷ ls in
    let deleted = run is_delete lines in
    let behind = after_run is_delete lines in
    let (x, y) = deletes_passed lines before o n p (q, h) in
    let (x', y', z) = inserts_passed behind (passed deleted before) (o + length deleted) n x y in
    later _ _ _ (o + length deleted) (n + length (run is_insert behind)) x' y'
      (put-change_of behind (passed deleted before) changes r o (o + length deleted) n
        (length deleted) (ground arith) (omega arith) x y c)
      e
extract_from-turn fuel insert v i j ls before changes found o n p h c later e =
    let lines = record { tag = insert; value = v; old_index = i; new_index = j } ∷ ls in
    let (x', y', z) = inserts_passed lines before o n p h in
    later _ _ _ o (n + length (run is_insert lines)) x' y'
      (put-change_of lines before changes (insert_at before) o o n 0 p (omega arith) p h c) e

extract_from-Ordered :
    (fuel : ℕ) (before lines : List DiffLine) (changes found : Changes) (o n : ℕ)
    → insert_at before ≡ o
    → NumberedFrom o n lines
    → InOrder 0 0 changes o n
    → extract_from fuel before lines changes ≡ some found
    → Ordered found
unfolding extract_from
extract_from-Ordered zero before lines changes found o n p h c e = absurd (ground arith)
extract_from-Ordered (suc fuel) before [] changes found o n p h c e =
    let same : changes ≡ found = ground arith in rw (← same) (o, n, c)
extract_from-Ordered (suc fuel) before (l ∷ ls) changes found o n p h c e =
    extract_from-turn fuel l.tag l.value l.old_index l.new_index ls before changes found o n p h c
      (λ b rest cs o' n'. extract_from-Ordered fuel b rest cs found o' n') e

-- Whatever changes the differ gives.
pub extract_changes-Ordered :
    (similar : Bytes → Bytes → List Change) (old new : Bytes) (found : Changes)
    → extract_changes (build_script similar old new) ≡ some found
    → Ordered found
unfolding extract_changes build_script insert_at
extract_changes-Ordered similar old new found e = elim (Bool-cases (old == new)) [
  | inl q ↦ let same : [] ≡ found = ground arith in rw (← same) (0, 0, omega arith)
  | inr q ↦
      let lines = number_lines (similar old new) 0 0 in
      let from : extract_from (suc (length lines)) [] lines [] ≡ some found = rw q at e in
      extract_from-Ordered (suc (length lines)) [] lines [] found 0 0 refl
        (number_lines-NumberedFrom (similar old new) 0 0) (omega arith) from
]
