-- ===== src/Diff/Conflict/Passed.antt =====
-- The loops over the deleted and the inserted lines of a script, and the numbers of its lines.
use remote_merge.Prelude.{
  ℕ, suc, zero, ◌+◌, false, List, [], ◌∷◌, Option, none, some, ◌==◌, nat_eq, list_eq, ltb, length,
  ◌≡◌, refl, arith,
}
use remote_merge.Text.{Bytes}
use remote_merge.Diff.Script.{
  DiffTag, equal, delete, insert, DiffLine, Change, number_lines, old_step, new_step,
}
use remote_merge.Diff.Conflict.{
  set_insert, is_delete, is_insert, run, after_run, add_index, new_indices, insert_at, passed,
}
use remote_merge.Diff.Conflict.Order.{count_up}

-- What the line says of its numbers, where those of the next lines are `o` and `n`.
abbrev Places : DiffTag → DiffLine → (o n : ℕ) → Type 0
Places equal l o n = l.old_index ≡ some o
Places delete l o n = l.old_index ≡ some o
Places insert l o n = (l.old_index ≡ none) × (l.new_index ≡ some n)

-- The lines are numbered from `o` and `n` on.
abbrev pub NumberedFrom : (o n : ℕ) → List DiffLine → Type 0
NumberedFrom o n [] = Unit
NumberedFrom o n (l ∷ ls) =
    Places l.tag l o n × NumberedFrom (old_step l.tag o) (new_step l.tag n) ls

number_lines-NumberedFrom_step :
    (t : DiffTag) (v : Bytes) (cs : List Change) (o n : ℕ)
    → NumberedFrom (old_step t o) (new_step t n) (number_lines cs (old_step t o) (new_step t n))
    → NumberedFrom o n (number_lines (record { tag = t; value = v } ∷ cs) o n)
unfolding number_lines
number_lines-NumberedFrom_step equal v cs o n h = (refl, h)
number_lines-NumberedFrom_step delete v cs o n h = (refl, h)
number_lines-NumberedFrom_step insert v cs o n h = ((refl, refl), h)

pub number_lines-NumberedFrom :
    (cs : List Change) (o n : ℕ) → NumberedFrom o n (number_lines cs o n)
unfolding number_lines
number_lines-NumberedFrom [] o n = tt
number_lines-NumberedFrom (c ∷ cs) o n =
    number_lines-NumberedFrom_step c.tag c.value cs o n
      (number_lines-NumberedFrom cs (old_step c.tag o) (new_step c.tag n))

-- What the loop over the deleted lines leaves: the line of the reference that it is at, and the
-- numbers of the lines behind.
abbrev pub DeletesPassed : List DiffLine → List DiffLine → (o n : ℕ) → Type 0
DeletesPassed ls before o n =
    (insert_at (passed (run is_delete ls) before) ≡ o + length (run is_delete ls))
    × NumberedFrom (o + length (run is_delete ls)) n (after_run is_delete ls)

DeletesPassed-step :
    (t : DiffTag) (v : Bytes) (i j : Option ℕ) (ls before : List DiffLine) (o n : ℕ)
    → insert_at before ≡ o
    → NumberedFrom o n (record { tag = t; value = v; old_index = i; new_index = j } ∷ ls)
    → ((b : List DiffLine)
        → insert_at b ≡ suc o
        → NumberedFrom (suc o) n ls
        → DeletesPassed ls b (suc o) n)
    → DeletesPassed (record { tag = t; value = v; old_index = i; new_index = j } ∷ ls) before o n
unfolding run after_run passed insert_at
DeletesPassed-step delete v i j ls before o n p (q, h) later =
    let (x, y) =
      later (record { tag = delete; value = v; old_index = i; new_index = j } ∷ before)
        (rw q (omega arith)) h in
    let e : suc o + length (run is_delete ls) ≡ o + suc (length (run is_delete ls)) = omega arith in
    (rw x (omega arith), rw e at y)
DeletesPassed-step equal v i j ls before o n p h later =
    let e : o + 0 ≡ o = omega arith in (rw p (omega arith), rw e h)
DeletesPassed-step insert v i j ls before o n p h later =
    let e : o + 0 ≡ o = omega arith in (rw p (omega arith), rw e h)

pub deletes_passed :
    (ls before : List DiffLine) (o n : ℕ)
    → insert_at before ≡ o
    → NumberedFrom o n ls
    → DeletesPassed ls before o n
unfolding run after_run passed
deletes_passed [] before o n p h = (omega arith, tt)
deletes_passed (l ∷ ls) before o n p h =
    DeletesPassed-step l.tag l.value l.old_index l.new_index ls before o n p h
      (λ b. deletes_passed ls b (suc o) n)

set_insert-count_up : (s j k : ℕ) → k ≡ s + j → set_insert k (count_up s j) ≡ count_up s (suc j)
unfolding set_insert count_up
set_insert-count_up s zero k e = let f : k ≡ s = omega arith in rw f refl
set_insert-count_up s (suc j) k e =
    let below : ltb k s ≡ false = ground arith in
    let other : (k == s) ≡ false = ground arith in
    rw (below, other, set_insert-count_up (suc s) j k (omega arith)) refl

-- What the loop over the inserted lines leaves, where the numbers taken so far are the `j` before
-- the next one.
abbrev pub InsertsPassed : List DiffLine → List DiffLine → (o n : ℕ) → Type 0
InsertsPassed ls before o n =
    (insert_at (passed (run is_insert ls) before) ≡ o)
    × NumberedFrom o (n + length (run is_insert ls)) (after_run is_insert ls)
    × ((s j : ℕ)
        → s + j ≡ n
        → new_indices (run is_insert ls) (count_up s j)
          ≡ count_up s (j + length (run is_insert ls)))

InsertsPassed-step :
    (t : DiffTag) (v : Bytes) (i j : Option ℕ) (ls before : List DiffLine) (o n : ℕ)
    → insert_at before ≡ o
    → NumberedFrom o n (record { tag = t; value = v; old_index = i; new_index = j } ∷ ls)
    → ((b : List DiffLine)
        → insert_at b ≡ o
        → NumberedFrom o (suc n) ls
        → InsertsPassed ls b o (suc n))
    → InsertsPassed (record { tag = t; value = v; old_index = i; new_index = j } ∷ ls) before o n
unfolding run after_run passed insert_at new_indices add_index
InsertsPassed-step insert v i j ls before o n p ((q, r), h) later =
    let (x, y, z) =
      later (record { tag = insert; value = v; old_index = i; new_index = j } ∷ before)
        (rw (q, p) refl) h in
    let e : suc n + length (run is_insert ls) ≡ n + suc (length (run is_insert ls)) = omega arith in
    (
      x,
      rw e at y,
      λ s c g.
          let f : c + suc (length (run is_insert ls)) ≡ suc c + length (run is_insert ls) =
            omega arith in
          rw (r, f, set_insert-count_up s c n (omega arith), z s (suc c) (omega arith)) refl,
    )
InsertsPassed-step equal v i j ls before o n p h later =
    let e : n + 0 ≡ n = omega arith in
    (p, rw e h, λ s c g. let f : c + 0 ≡ c = omega arith in rw f refl)
InsertsPassed-step delete v i j ls before o n p h later =
    let e : n + 0 ≡ n = omega arith in
    (p, rw e h, λ s c g. let f : c + 0 ≡ c = omega arith in rw f refl)

pub inserts_passed :
    (ls before : List DiffLine) (o n : ℕ)
    → insert_at before ≡ o
    → NumberedFrom o n ls
    → InsertsPassed ls before o n
unfolding run after_run passed new_indices
inserts_passed [] before o n p h = (p, tt, λ s c g. let f : c + 0 ≡ c = omega arith in rw f refl)
inserts_passed (l ∷ ls) before o n p h =
    InsertsPassed-step l.tag l.value l.old_index l.new_index ls before o n p h
      (λ b. inserts_passed ls b o (suc n))
