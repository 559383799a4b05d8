-- ===== src/Treat/MergePlan/Order.antt =====
-- The order of a plan, and what it leaves alone below a path of another kind.
use remote_merge.Prelude.{
  true, false, List, [], ◌∷◌, ◌++◌, map, some, any, All, All-append, All-map, All-every,
  if◌then◌else◌, nat_eq, ◌≡◌, refl, arith, Bool-cases, Option-cases, inl, inr,
}
use mathlib.Core.List.{append-nil}
use remote_merge.Text.{Bytes, strip_prefix, at_most}
use remote_merge.Paths.{is_below}
use remote_merge.Paths.Below.{append-of_strip_prefix, strip_prefix-append}
use remote_merge.Treat.Merge.{
  MergeEntry, not_found, Plan, is_kind_mismatch, without_below, without_skipped_subtrees,
}
use remote_merge.Treat.Scope.{MergeTargets}
use remote_merge.Treat.MergePlan.{
  PlanOptions, Comparisons, missing, entry_of_path, entries, merge_plan,
}
use remote_merge.Treat.MergePlan.Items.{sort_by_path-All, without_below-All}

at_most-append : (p rest : Bytes) → at_most p (p ++ rest) ≡ true
unfolding at_most
at_most-append [] rest = refl
at_most-append (c ∷ cs) rest = ground (arith, at_most-append cs rest)

pub at_most-total : (p q : Bytes) → at_most p q ≡ false → at_most q p ≡ true
unfolding at_most
at_most-total [] q h = absurd (ground arith)
at_most-total (c ∷ cs) [] h = refl
at_most-total (c ∷ cs) (d ∷ ds) h = ground (arith, at_most-total cs ds)

pub at_most_trans : (p q r : Bytes) → at_most p q ≡ true → at_most q r ≡ true → at_most p r ≡ true
unfolding at_most
at_most_trans [] q r h k = refl
at_most_trans (c ∷ cs) [] r h k = absurd (ground arith)
at_most_trans (c ∷ cs) (d ∷ ds) [] h k = absurd (ground arith)
at_most_trans (c ∷ cs) (d ∷ ds) (e ∷ es) h k = ground (arith, at_most_trans cs ds es)

-- A path stands behind whatever it lies below.
is_below-at_most : (path root : Bytes) → is_below path root ≡ true → at_most root path ≡ true
unfolding is_below
is_below-at_most path root h = elim (Option-cases (strip_prefix path root)) [
  | inl e ↦ absurd (ground arith)
  | inr (rest, e) ↦ rw (append-of_strip_prefix path root rest e) (at_most-append root rest)
]

is_below_self : (path : Bytes) → is_below path path ≡ false
unfolding is_below
is_below_self path =
    let e : strip_prefix path path ≡ some [] = rw append-nil at (strip_prefix-append path []) in
    rw (is_below, e)

-- The paths are in strictly ascending order, as in a `BTreeMap`.
abbrev pub Before : Bytes → Bytes → Type 0
Before p q = at_most q p ≡ false

abbrev pub Ascending : Comparisons → Type 0
Ascending [] = Unit
Ascending ((path, c) ∷ rest) = All (λ item. Before path item.0) rest × Ascending rest

AscendingPlan : Plan → Type 0
AscendingPlan [] = Unit
AscendingPlan ((path, entry) ∷ rest) = All (λ item. Before path item.0) rest × AscendingPlan rest

entries-All :
    (P : Bytes → Type 0) (paths : Comparisons) (targets : MergeTargets) (options : PlanOptions)
    (rest : Comparisons)
    → All (λ item. P item.0) rest
    → All (λ item. P item.0) (entries paths targets options rest)
unfolding entries
entries-All P paths targets options [] h = tt
entries-All P paths targets options ((path, c) ∷ rest) (h, hs) =
    elim (Option-cases (entry_of_path paths targets options path c)) [
      | inl e ↦ rw e (entries-All P paths targets options rest hs)
      | inr (entry, e) ↦ rw e (h, entries-All P paths targets options rest hs)
    ]

entries-AscendingPlan :
    (paths : Comparisons) (targets : MergeTargets) (options : PlanOptions) (rest : Comparisons)
    → Ascending rest
    → AscendingPlan (entries paths targets options rest)
unfolding entries AscendingPlan
entries-AscendingPlan paths targets options [] h = tt
entries-AscendingPlan paths targets options ((path, c) ∷ rest) (h, hs) =
    elim (Option-cases (entry_of_path paths targets options path c)) [
      | inl e ↦ rw e (entries-AscendingPlan paths targets options rest hs)
      | inr (entry, e) ↦ rw e (
        entries-All (Before path) paths targets options rest h,
        entries-AscendingPlan paths targets options rest hs,
      )
    ]

-- What is kept lies below none of the paths skipped.
without_below-outside :
    (skipped : List Bytes) (plan : Plan)
    → All (λ item. any (λ root. is_below item.0 root) skipped ≡ false) (without_below skipped plan)
unfolding without_below
without_below-outside skipped [] = tt
without_below-outside skipped ((path, entry) ∷ plan) =
    elim (Bool-cases (any (λ root. is_below path root) skipped)) [
      | inl dropped ↦ rw dropped (without_below-outside skipped plan)
      | inr kept ↦ elim (Bool-cases (is_kind_mismatch entry)) [
        | inl mismatch ↦
            rw (kept, mismatch)
              (
                kept,
                All-map _ _ (λ item h. ground arith) (without_below (path ∷ skipped) plan)
                    (without_below-outside (path ∷ skipped) plan),
              )
        | inr other ↦ rw (kept, other) (kept, without_below-outside skipped plan)
      ]
    ]

-- Nothing is done to the item because of the root: it lies elsewhere, or neither side has its name.
abbrev pub LeftAlone : Bytes × MergeEntry → Bytes × MergeEntry → Type 0
LeftAlone root item =
    is_kind_mismatch root.1 ≡ true → is_below item.0 root.0 ≡ true → item.1 ≡ not_found

All-zip :
    {A : Type 0} (P Q : A → Type 0) (xs : List A) → All P xs → All Q xs → All (λ x. P x × Q x) xs
All-zip P Q [] h k = tt
All-zip P Q (x ∷ xs) (h, hs) (k, ks) = ((h, k), All-zip P Q xs hs ks)

without_below-LeftAlone :
    (skipped : List Bytes) (plan : Plan)
    → AscendingPlan plan
    → All (λ root. All (LeftAlone root) (without_below skipped plan)) (without_below skipped plan)
unfolding without_below AscendingPlan
without_below-LeftAlone skipped [] h = tt
without_below-LeftAlone skipped ((path, entry) ∷ plan) (before, h) =
    elim (Bool-cases (any (λ root. is_below path root) skipped)) [
      | inl dropped ↦ rw dropped (without_below-LeftAlone skipped plan h)
      | inr kept ↦
          let deeper = if is_kind_mismatch entry then path ∷ skipped else skipped in
          let after = without_below deeper plan in
          rw kept (
            (
              λ mismatch below. absurd (let no_self = is_below_self path in ground arith),
              All-map _ _ (λ item outside mismatch below. absurd (ground arith)) after
                  (without_below-outside deeper plan),
            ),
            All-zip _ _ after
                (All-map _ _
                  (λ root later mismatch below.
                    absurd (let order = is_below-at_most path root.0 below in ground arith))
                  after (without_below-All (λ item. Before path item.0) deeper plan before))
                (without_below-LeftAlone deeper plan h),
          )
    ]

-- In the plan, nothing but a name that neither side has lies below a path that is skipped because
-- its kind differs between the two sides: what lies there is neither written nor deleted.
pub merge_plan-LeftAlone :
    (paths : Comparisons) (targets : MergeTargets) (options : PlanOptions)
    → Ascending paths
    → All
        (λ root. All (LeftAlone root) (merge_plan paths targets options))
        (merge_plan paths targets options)
unfolding merge_plan without_skipped_subtrees
merge_plan-LeftAlone paths targets options h =
    let kept = without_below [] (entries paths targets options paths) in
    let named = map (λ (name : Bytes). (name, not_found)) (missing paths targets options) in
    let both = kept ++ named in
    sort_by_path-All _ both (
      All-map _ _ (λ root. sort_by_path-All (LeftAlone root) both) both
        (All-append _ kept named
          (All-map _ _
            (λ root each. All-append (LeftAlone root) kept named each (names_LeftAlone root _)) kept
            (without_below-LeftAlone [] (entries paths targets options paths)
              (entries-AscendingPlan paths targets options paths h)))
          (roots_LeftAlone both _)))
  where
    names_LeftAlone :
        (root : Bytes × MergeEntry) (names : List Bytes)
        → All (LeftAlone root) (map (λ (name : Bytes). (name, not_found)) names)
    names_LeftAlone root [] = tt
    names_LeftAlone root (name ∷ names) = (λ mismatch below. refl, names_LeftAlone root names)

    roots_LeftAlone :
        (items : Plan) (names : List Bytes)
        → All
            (λ (root : Bytes × MergeEntry). All (LeftAlone root) items)
            (map (λ (name : Bytes). (name, not_found)) names)
    roots_LeftAlone items [] = tt
    roots_LeftAlone items (name ∷ names) =
        (All-every _ (λ item mismatch. absurd (ground arith)) items, roots_LeftAlone items names)
