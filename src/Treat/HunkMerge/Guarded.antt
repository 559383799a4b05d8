-- ===== src/Treat/HunkMerge/Guarded.antt =====
-- What holds where hunks were merged.
use remote_merge.Prelude.{
  ℕ, ◌<◌, Bool, true, false, List, [], ◌∷◌, none, some, ok, leb, All, ◌≡◌, inl, inr, ap, ◌∙◌, arith,
  Bool-cases, Option-cases, Result-cases,
}
use remote_merge.Text.{Bytes}
use remote_merge.Content.{Text}
use remote_merge.Diff.Script.{Change, left_to_right}
use remote_merge.Diff.Hunks.{build_script, hunk_count}
use remote_merge.Diff.Apply.{apply}
use remote_merge.Treat.Content.{
  Prepared, absent, binary, non_file, unavailable, text, View, empty_text, text_or_empty, conflicts,
}
use remote_merge.Treat.HunkMerge.{
  is_absent, beyond, with_bom, merge_texts, merge_checked, merge_sides, reference_problem,
  merge_prepared,
}

-- The side is a text, or absent and so an empty text.
pub data TextOrAbsent : Prepared → Text → Type 0 where
  is_text : (t : Text) → TextOrAbsent (text t) t
  is_nothing : TextOrAbsent absent empty_text

-- The two sides are texts or absent, no conflict stands against the reference, every chosen hunk is
-- one of the hunks, and the content is what these hunks make of the right side.
pub record Guarded (similar : Bytes → Bytes → List Change) (view : View) (selected : List ℕ)
    (reference : Bool) (content : Bytes) (total : ℕ) : Type 0 where
  pub left_side : Prepared
  pub right_side : Prepared
  pub left_text : Text
  pub right_text : Text
  pub on_left : view.left ≡ ok left_side
  pub on_right : view.right ≡ ok right_side
  pub left_reads : TextOrAbsent left_side left_text
  pub right_reads : TextOrAbsent right_side right_text
  pub no_conflict : reference ≡ true → conflicts similar view ≡ some []
  pub counted : hunk_count (build_script similar left_text.decoded right_text.decoded) ≡ some total
  pub in_range : All (λ i. i < total) selected
  pub body : Bytes
  pub applied :
      apply left_text right_text
        (build_script similar left_text.decoded right_text.decoded)
        selected
        left_to_right
      ≡ some body
  pub behind_bom : content ≡ with_bom (is_absent right_side) left_text body

beyond-All : (total : ℕ) (is : List ℕ) → beyond total is ≡ none → All (λ i. i < total) is
unfolding beyond
beyond-All total [] h = tt
beyond-All total (i ∷ is) h = elim (Bool-cases (leb total i)) [
  | inl e ↦ absurd (ground arith)
  | inr e ↦ (ground arith, beyond-All total is (ground arith))
]

module _ (similar : Bytes → Bytes → List Change) where
  record Made (l r : Text) (into_new : Bool) (selected : List ℕ) (content : Bytes) (total : ℕ)
      : Type 0 where
    counted : hunk_count (build_script similar l.decoded r.decoded) ≡ some total
    in_range : All (λ i. i < total) selected
    body : Bytes
    applied :
        apply l r (build_script similar l.decoded r.decoded) selected left_to_right ≡ some body
    behind_bom : content ≡ with_bom into_new l body

  merge_texts-Made :
      (l r : Text) (into_new : Bool) (selected : List ℕ) (content : Bytes) (total : ℕ)
      → merge_texts similar l r into_new selected ≡ some (ok (some (content, total)))
      → Made l r into_new selected content total
  unfolding merge_texts
  merge_texts-Made l r into_new selected content total h =
      let script = build_script similar l.decoded r.decoded in
      elim (Option-cases (hunk_count script)) [
        | inl e ↦ absurd (ground arith)
        | inr (n, e) ↦ elim (Option-cases (beyond n selected)) [
          | inr (i, f) ↦ absurd (ground arith)
          | inl f ↦ elim (Option-cases (apply l r script selected left_to_right)) [
            | inl g ↦ absurd (ground arith)
            | inr (body, g) ↦
                let same : n ≡ total = ground arith in
                record {
                  counted = e ∙ ap some same;
                  in_range = rw same at (beyond-All n selected f);
                  body = body;
                  applied = g;
                  behind_bom = ground arith;
                }
          ]
        ]
      ]

  merge_checked-Made :
      (view : View) (left right : Prepared) (l r : Text) (selected : List ℕ) (reference : Bool)
      (content : Bytes) (total : ℕ)
      → merge_checked similar view left right l r selected reference
        ≡ some (ok (some (content, total)))
      → Made l r (is_absent right) selected content total
        × (reference ≡ true → conflicts similar view ≡ some [])
  unfolding merge_checked
  merge_checked-Made view left right l r selected false content total h = (
    merge_texts-Made l r (is_absent right) selected content total (ground arith),
    λ e. absurd (ground arith),
  )
  merge_checked-Made view left right l r selected true content total h =
      elim (Option-cases (conflicts similar view)) [
        | inl e ↦ absurd (ground arith)
        | inr ([], e) ↦
            (merge_texts-Made l r (is_absent right) selected content total (ground arith), λ _. e)
        | inr (area ∷ areas, e) ↦ absurd (ground arith)
      ]

  guarded :
      (view : View) (left right : Prepared) (l r : Text) (selected : List ℕ) (reference : Bool)
      (content : Bytes) (total : ℕ)
      → view.left ≡ ok left
      → view.right ≡ ok right
      → TextOrAbsent left l
      → TextOrAbsent right r
      → merge_checked similar view left right l r selected reference
        ≡ some (ok (some (content, total)))
      → Guarded similar view selected reference content total
  guarded view left right l r selected reference content total on_left on_right left_reads
        right_reads h =
      let (made, clear) =
        merge_checked-Made view left right l r selected reference content total h in
      record {
        left_side = left;
        right_side = right;
        left_text = l;
        right_text = r;
        on_left = on_left;
        on_right = on_right;
        left_reads = left_reads;
        right_reads = right_reads;
        no_conflict = clear;
        counted = made.counted;
        in_range = made.in_range;
        body = made.body;
        applied = made.applied;
        behind_bom = made.behind_bom;
      }

  -- Hunks are merged only where both sides are texts or absent, where nothing conflicts with the
  -- reference if there is one, and where every chosen hunk exists. The content is then what the
  -- chosen hunks make of the right side, behind the BOM of the left side if the right one is absent.
  pub merge_prepared-Guarded :
      (view : View) (selected : List ℕ) (reference : Bool) (content : Bytes) (total : ℕ)
      → merge_prepared similar view selected reference ≡ some (ok (some (content, total)))
      → Guarded similar view selected reference content total
  unfolding merge_prepared merge_sides text_or_empty
  merge_prepared-Guarded view selected reference content total h = elim (Result-cases view.left) [
    | inr (why, e) ↦ absurd (ground arith)
    | inl (left, e) ↦ elim (Result-cases view.right) [
      | inr (why, f) ↦ absurd (ground arith)
      | inl (right, f) ↦ by_sides left right e f
    ]
  ]
    where
      by_sides :
          (left right : Prepared)
          → view.left ≡ ok left
          → view.right ≡ ok right
          → Guarded similar view selected reference content total
      by_sides (text l) (text r) e f =
          elim (Option-cases (reference_problem similar view reference)) [
            | inr (why, g) ↦ absurd (ground arith)
            | inl g ↦
                guarded view (text l) (text r) l r selected reference content total e f (is_text l)
                  (is_text r) (ground arith)
          ]
      by_sides (text l) absent e f =
          elim (Option-cases (reference_problem similar view reference)) [
            | inr (why, g) ↦ absurd (ground arith)
            | inl g ↦
                guarded view (text l) absent l empty_text selected reference content total e f
                  (is_text l) is_nothing (ground arith)
          ]
      by_sides absent (text r) e f =
          elim (Option-cases (reference_problem similar view reference)) [
            | inr (why, g) ↦ absurd (ground arith)
            | inl g ↦
                guarded view absent (text r) empty_text r selected reference content total e f
                  is_nothing (is_text r) (ground arith)
          ]
      by_sides absent absent e f = elim (Option-cases (reference_problem similar view reference)) [
        | inr (why, g) ↦ absurd (ground arith)
        | inl g ↦
            guarded view absent absent empty_text empty_text selected reference content total e f
              is_nothing is_nothing (ground arith)
      ]
      by_sides (binary bytes) right e f = absurd (ground arith)
      by_sides non_file (binary bytes) e f = absurd (ground arith)
      by_sides non_file right e f = absurd (ground arith)
      by_sides unavailable (binary bytes) e f = absurd (ground arith)
      by_sides unavailable right e f = absurd (ground arith)
      by_sides (text l) (binary bytes) e f = absurd (ground arith)
      by_sides (text l) non_file e f = absurd (ground arith)
      by_sides (text l) unavailable e f = absurd (ground arith)
      by_sides absent (binary bytes) e f = absurd (ground arith)
      by_sides absent non_file e f = absurd (ground arith)
      by_sides absent unavailable e f = absurd (ground arith)
