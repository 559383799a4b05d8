-- ===== src/Diff/Script.antt =====
-- The script between two texts: the changes of crate `similar`, with line numbers
-- (diff/engine.rs). `similar` is a parameter: it gives the changes between two decoded texts.
use remote_merge.Prelude.{ℕ, suc, List, [], ◌∷◌, Option, none, some, list_eq, nat_eq}
use remote_merge.Text.{Bytes}

pub data HunkDirection : Type 0 where
  right_to_left left_to_right : HunkDirection

pub data DiffTag : Type 0 where
  equal delete insert : DiffTag

pub record DiffLine : Type 0 where
  pub tag : DiffTag
  pub value : Bytes
  pub old_index : Option ℕ
  pub new_index : Option ℕ

-- One change of `similar`: its tag and the line.
pub record Change : Type 0 where
  pub tag : DiffTag
  pub value : Bytes

number_one : DiffTag → Bytes → ℕ → ℕ → DiffLine
number_one equal value old_idx new_idx = record {
  tag = equal;
  value = value;
  old_index = some old_idx;
  new_index = some new_idx;
}
number_one delete value old_idx new_idx = record {
  tag = delete;
  value = value;
  old_index = some old_idx;
  new_index = none;
}
number_one insert value old_idx new_idx = record {
  tag = insert;
  value = value;
  old_index = none;
  new_index = some new_idx;
}

-- What a line with the tag advances the number of the old and of the new text by.
abbrev pub old_step : DiffTag → ℕ → ℕ
old_step insert n = n
old_step _ n = suc n

abbrev pub new_step : DiffTag → ℕ → ℕ
new_step delete n = n
new_step _ n = suc n

-- The loop over `iter_all_changes`.
unfoldable pub number_lines : List Change → ℕ → ℕ → List DiffLine
unfolding number_one
number_lines [] old_idx new_idx = []
number_lines (c ∷ cs) old_idx new_idx =
    number_one c.tag c.value old_idx new_idx
    ∷ number_lines cs (old_step c.tag old_idx) (new_step c.tag new_idx)
