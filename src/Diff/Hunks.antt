-- ===== src/Diff/Hunks.antt =====
-- Hunks: the changed lines of a script with their context (diff/engine.rs, `build_hunks`,
-- `build_script` and `merge_hunks_in_display_hunks`).
pub mod Cover
pub mod Bounds
pub mod Nested
use remote_merge.Prelude.{
  ℕ, suc, zero, ◌+◌, ◌-◌, min, Bool, true, false, ◌&&◌, List, [], ◌∷◌, Option, none, some, ◌==◌,
  list_eq, nat_eq, if◌then◌else◌, leb, length, take, drop, get_elem?, any,
}
use remote_merge.Text.{Bytes}
use remote_merge.Diff.Script.{
  DiffTag, equal, delete, insert, DiffLine, Change, number_lines, old_step, new_step,
}

pub record DiffHunk : Type 0 where
  pub start : ℕ  -- line_range.start
  pub end : ℕ  -- line_range.end
  pub old_start : ℕ
  pub new_start : ℕ

pub data DiffResult : Type 0 where
  same : DiffResult
  modified : List DiffHunk → List DiffHunk → List DiffLine → DiffResult

-- `PairScript::hunk_count`: none where the texts are the same.
unfoldable pub hunk_count : DiffResult → Option ℕ
hunk_count same = none
hunk_count (modified hunks _ _) = some (length hunks)

unfoldable pub is_equal : DiffTag → Bool
is_equal equal = true
is_equal _ = false

-- The positions of the changed lines, the first line standing at `i`.
unfoldable pub change_indices : List DiffLine → ℕ → List ℕ
unfolding is_equal
change_indices [] i = []
change_indices (l ∷ ls) i =
    let rest = change_indices ls (suc i) in if is_equal l.tag then rest else i ∷ rest

-- The variables that `make_hunk` captures.
pub record Cursor : Type 0 where
  pub position : ℕ
  pub old_start : ℕ
  pub new_start : ℕ

-- The loop over `lines[position..start]`.
unfoldable pub count_old : List DiffLine → ℕ → ℕ
count_old [] n = n
count_old (l ∷ ls) n = count_old ls (old_step l.tag n)

unfoldable pub count_new : List DiffLine → ℕ → ℕ
count_new [] n = n
count_new (l ∷ ls) n = count_new ls (new_step l.tag n)

module _ (lines : List DiffLine) where
  unfoldable pub advance : Cursor → ℕ → Cursor
  unfolding count_old count_new
  advance c start =
      let passed = take (start - c.position) (drop c.position lines) in
      record {
        position = start;
        old_start = count_old passed c.old_start;
        new_start = count_new passed c.new_start;
      }

  abbrev pub hunk_at : Cursor → ℕ → DiffHunk
  hunk_at c end = record {
    start = c.position;
    end = end;
    old_start = c.old_start;
    new_start = c.new_start;
  }

  -- The loop over the changed lines after the first; the open hunk runs from `hunk_start` to
  -- `hunk_end`.
  unfoldable pub hunk_loop : ℕ → Cursor → ℕ → ℕ → List ℕ → List DiffHunk
  unfolding advance
  hunk_loop context c hunk_start hunk_end [] = hunk_at (advance c hunk_start) hunk_end ∷ []
  hunk_loop context c hunk_start hunk_end (ci ∷ cis) =
      let ci_end = min (ci + context + 1) (length lines) in
      let joined = hunk_loop context c hunk_start ci_end cis in
      let apart = hunk_loop context (advance c hunk_start) (ci - context) ci_end cis in
      if leb (ci - context) hunk_end
      then joined
      else hunk_at (advance c hunk_start) hunk_end ∷ apart

  hunks_of : ℕ → List ℕ → List DiffHunk
  unfolding hunk_loop
  hunks_of context [] = []
  hunks_of context (ci ∷ cis) =
      hunk_loop context (record { position = 0; old_start = 0; new_start = 0 }) (ci - context)
        (min (ci + context + 1) (length lines)) cis

  unfoldable pub build_hunks : ℕ → List DiffHunk
  unfolding hunks_of change_indices
  build_hunks context = hunks_of context (change_indices lines 0)

-- `similar` is the crate's `TextDiff::from_lines(old, new).iter_all_changes()`.
module _ (similar : Bytes → Bytes → List Change) where
  unfoldable pub build_script : Bytes → Bytes → DiffResult
  unfolding number_lines build_hunks
  build_script old new =
      let lines = number_lines (similar old new) 0 0 in
      if old == new then same else modified (build_hunks lines 3) (build_hunks lines 0) lines

-- The positions in the list whose item passes the test, the first standing at `i`.
unfoldable pub positions : {A : Type 0} → (A → Bool) → ℕ → List A → List ℕ
positions test i [] = []
positions test i (x ∷ xs) =
    let rest = positions test (suc i) xs in if test x then i ∷ rest else rest

unfoldable pub contains : DiffHunk → DiffHunk → Bool
contains display merge = leb display.start merge.start && leb merge.end display.end

unfoldable pub contains? : Option DiffHunk → DiffHunk → Bool
unfolding contains
contains? none merge = false
contains? (some display) merge = contains display merge

-- A set of numbers is a list of them; order and repetition do not matter.
unfoldable pub merge_hunks_in_display_hunks : List DiffHunk → List DiffHunk → List ℕ → List ℕ
unfolding positions contains?
merge_hunks_in_display_hunks display_hunks merge_hunks selected =
    positions (λ merge. any (λ index. contains? (get_elem? display_hunks index) merge) selected) 0
      merge_hunks
