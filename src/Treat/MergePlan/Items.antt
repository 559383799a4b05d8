-- ===== src/Treat/MergePlan/Items.antt =====
-- What holds of everything that a plan is put together from holds of the plan.
use remote_merge.Prelude.{List, [], ◌∷◌, map, any, All, All-append, Bool-cases, inl, inr}
use remote_merge.Text.{Bytes, at_most}
use remote_merge.Paths.{is_below}
use remote_merge.Treat.Merge.{MergeEntry, not_found, Plan, without_below, without_skipped_subtrees}
use remote_merge.Treat.Scope.{MergeTargets}
use remote_merge.Treat.MergePlan.{
  PlanOptions, Comparisons, place, sort_by_path, missing, entries, merge_plan,
}

-- What holds of all items of a plan holds of all items of the plan in order.
pub place-All :
    (P : Bytes × MergeEntry → Type 0) (item : Bytes × MergeEntry) (plan : Plan)
    → P item
    → All P plan
    → All P (place item plan)
unfolding place
place-All P item [] h hs = (h, tt)
place-All P item (other ∷ plan) h (g, gs) = elim (Bool-cases (at_most item.0 other.0)) [
  | inl front ↦ rw front (h, (g, gs))
  | inr behind ↦ rw behind (g, place-All P item plan h gs)
]

pub sort_by_path-All :
    (P : Bytes × MergeEntry → Type 0) (plan : Plan) → All P plan → All P (sort_by_path plan)
unfolding sort_by_path
sort_by_path-All P [] h = tt
sort_by_path-All P (item ∷ plan) (h, hs) =
    place-All P item (sort_by_path plan) h (sort_by_path-All P plan hs)

pub without_below-All :
    (P : Bytes × MergeEntry → Type 0) (skipped : List Bytes) (plan : Plan)
    → All P plan
    → All P (without_below skipped plan)
unfolding without_below
without_below-All P skipped [] h = tt
without_below-All P skipped ((path, entry) ∷ plan) (h, hs) =
    elim (Bool-cases (any (λ root. is_below path root) skipped)) [
      | inl dropped ↦ rw dropped (without_below-All P skipped plan hs)
      | inr kept ↦ rw kept (h, without_below-All P _ plan hs)
    ]

-- The plan holds the entries of the loop and the names that neither side has, and nothing else.
pub merge_plan-All :
    (P : Bytes × MergeEntry → Type 0) (paths : Comparisons) (targets : MergeTargets)
    (options : PlanOptions)
    → All P (entries paths targets options paths)
    → All (λ name. P (name, not_found)) (missing paths targets options)
    → All P (merge_plan paths targets options)
unfolding merge_plan without_skipped_subtrees
merge_plan-All P paths targets options h k = sort_by_path-All P _ (
    All-append P (without_below [] (entries paths targets options paths)) _
      (without_below-All P [] (entries paths targets options paths) h) (named _ k))
  where
    named :
        (names : List Bytes)
        → All (λ (name : Bytes). P (name, not_found)) names
        → All P (map (λ (name : Bytes). (name, not_found)) names)
    named [] h = tt
    named (name ∷ names) (h, hs) = (h, named names hs)
