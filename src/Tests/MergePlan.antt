-- ===== src/Tests/MergePlan.antt =====
-- The plan of a merge with --delete over a few paths.
use remote_merge.Prelude.{true, false, [], ◌∷◌, some, All, Some, ◌⊎◌, ◌≡◌, refl, nat_eq, list_eq}
use remote_merge.Text.{codes, at_most}
use remote_merge.Compare.State.{SideState}
use remote_merge.Compare.Verdict.{first, second, one_sided, kind_differs}
use remote_merge.Treat.Merge.{MergeEntry, not_found}
use remote_merge.Treat.Scope.{MergeTargets, whole}
use remote_merge.Treat.MergePlan.{PlanOptions, Comparisons, is_missing, entry_of_path, merge_plan}
use remote_merge.Treat.MergePlan.Passed.{is_change}
use remote_merge.Treat.MergePlan.Changes.{Asked, merge_plan-Asked}
use remote_merge.Treat.MergePlan.Order.{Ascending, LeftAlone, merge_plan-LeftAlone}
use remote_merge.Treat.MergePlan.Complete.{InOrder, SkippedAbove, merge_plan_complete}
use remote_merge.Tests.Treat.{a_file, compared, on_sides}

-- A directory over a file with something below it, and a new file.
abbrev paths : Comparisons
paths =
    (codes "d", compared (on_sides a_file SideState.directory) kind_differs)
    ∷ (codes "d/x", compared (on_sides SideState.absent a_file) (one_sided second))
    ∷ (codes "e", compared (on_sides a_file SideState.absent) (one_sided first))
    ∷ []

abbrev targets : MergeTargets
targets = record { scope = whole; named = codes "d" ∷ codes "e" ∷ codes "gone" ∷ [] }

abbrev options : PlanOptions
options = record { delete = true; reference_check = false }

paths-Ascending : Ascending paths
unfolding at_most nat_eq
paths-Ascending = ((refl, (refl, tt)), ((refl, tt), (tt, tt)))

merge_plan-Asked_example :
    All
      (λ item. is_change item.1 ≡ true → Asked paths targets options item.0 item.1)
      (merge_plan paths targets options)
merge_plan-Asked_example = merge_plan-Asked paths targets options

merge_plan-LeftAlone_example :
    All
      (λ root. All (LeftAlone root) (merge_plan paths targets options))
      (merge_plan paths targets options)
merge_plan-LeftAlone_example = merge_plan-LeftAlone paths targets options paths-Ascending

merge_plan_complete_example :
    InOrder (merge_plan paths targets options)
    × All
        (λ name.
          is_missing paths options name ≡ true
          → Some (λ item. item ≡ (name, not_found)) (merge_plan paths targets options))
        targets.named
    × All
        (λ item.
          (entry : MergeEntry)
          → entry_of_path paths targets options item.0 item.1 ≡ some entry
          → Some (λ other. other ≡ (item.0, entry)) (merge_plan paths targets options)
            ⊎ Some (SkippedAbove item.0) (merge_plan paths targets options))
        paths
merge_plan_complete_example = merge_plan_complete paths targets options
