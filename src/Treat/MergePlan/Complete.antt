-- ===== src/Treat/MergePlan/Complete.antt =====
-- The plan is in the order of the paths, and leaves out nothing that it should hold.
use remote_merge.Prelude.{
  Bool, true, false, List, [], ◌∷◌, ◌++◌, map, Option, none, some, any, filter, All, All-map, Some,
  Some-append_left, Some-append_right, if◌then◌else◌, ◌≡◌, ◌⊎◌, refl, ap, arith, Bool-cases, inl,
  inr,
}
use remote_merge.Text.{Bytes, at_most}
use remote_merge.Paths.{is_below}
use remote_merge.Treat.Merge.{
  MergeEntry, not_found, Plan, is_kind_mismatch, without_below, without_skipped_subtrees,
}
use remote_merge.Treat.Scope.{MergeTargets}
use remote_merge.Treat.MergePlan.{
  PlanOptions, Comparisons, place, sort_by_path, is_missing, missing, entry_of_path, cons_entry,
  entries, merge_plan,
}
use remote_merge.Treat.MergePlan.Items.{place-All}
use remote_merge.Treat.MergePlan.Order.{at_most-total, at_most_trans}

-- Every item stands in front of those with the same path or a later one.
abbrev pub InOrder : Plan → Type 0
InOrder [] = Unit
InOrder ((path, entry) ∷ plan) = All (λ item. at_most path item.0 ≡ true) plan × InOrder plan

place-InOrder : (item : Bytes × MergeEntry) (plan : Plan) → InOrder plan → InOrder (place item plan)
unfolding place
place-InOrder item [] h = (tt, tt)
place-InOrder item ((path, entry) ∷ plan) (h, hs) = elim (Bool-cases (at_most item.0 path)) [
  | inl front ↦
      rw front
        ((front, All-map _ _ (λ other. at_most_trans item.0 path other.0 front) plan h), (h, hs))
  | inr behind ↦ rw behind (
    place-All (λ other. at_most path other.0 ≡ true) item plan (at_most-total item.0 path behind) h,
    place-InOrder item plan hs,
  )
]

sort_by_path-InOrder : (plan : Plan) → InOrder (sort_by_path plan)
unfolding sort_by_path
sort_by_path-InOrder [] = tt
sort_by_path-InOrder (item ∷ plan) =
    place-InOrder item (sort_by_path plan) (sort_by_path-InOrder plan)

place-here :
    (P : Bytes × MergeEntry → Type 0) (item : Bytes × MergeEntry) (plan : Plan)
    → P item
    → Some P (place item plan)
unfolding place
place-here P item [] h = inl h
place-here P item (other ∷ plan) h = elim (Bool-cases (at_most item.0 other.0)) [
  | inl front ↦ rw front (inl h)
  | inr behind ↦ rw behind (inr (place-here P item plan h))
]

place-Some :
    (P : Bytes × MergeEntry → Type 0) (item : Bytes × MergeEntry) (plan : Plan)
    → Some P plan
    → Some P (place item plan)
unfolding place
place-Some P item [] h = absurd h
place-Some P item (other ∷ plan) h = elim (Bool-cases (at_most item.0 other.0)) [
  | inl front ↦ rw front (inr h)
  | inr behind ↦ rw behind (deeper h (place-Some P item plan))
]
  where
    deeper :
        P other ⊎ Some P plan
        → (Some P plan → Some P (place item plan))
        → P other ⊎ Some P (place item plan)
    deeper (inl here) later = inl here
    deeper (inr there) later = inr (later there)

sort_by_path-Some :
    (P : Bytes × MergeEntry → Type 0) (plan : Plan) → Some P plan → Some P (sort_by_path plan)
unfolding sort_by_path
sort_by_path-Some P [] h = absurd h
sort_by_path-Some P (item ∷ plan) (inl h) = place-here P item (sort_by_path plan) h
sort_by_path-Some P (item ∷ plan) (inr h) =
    place-Some P item (sort_by_path plan) (sort_by_path-Some P plan h)

-- The item is skipped for its kind, and the path lies below it.
abbrev pub SkippedAbove : Bytes → Bytes × MergeEntry → Type 0
SkippedAbove path item = (is_kind_mismatch item.1 ≡ true) × (is_below path item.0 ≡ true)

-- The three ways in which an item of the list fares.
abbrev Fares : List Bytes → Plan → Bytes × MergeEntry → Type 0
Fares skipped kept x =
    Some (λ item. item ≡ x) kept
    ⊎ (any (λ root. is_below x.0 root) skipped ≡ true)
    ⊎ Some (SkippedAbove x.0) kept

Fares-cons :
    (skipped : List Bytes) (path : Bytes) (entry : MergeEntry) (kept : Plan)
    (x : Bytes × MergeEntry)
    → Fares (if is_kind_mismatch entry then path ∷ skipped else skipped) kept x
    → Fares skipped ((path, entry) ∷ kept) x
Fares-cons skipped path entry kept x (inl there) = inl (inr there)
Fares-cons skipped path entry kept x (inr (inr above)) = inr (inr (inr above))
Fares-cons skipped path entry kept x (inr (inl below)) =
    elim (Bool-cases (is_kind_mismatch entry)) [
      | inr other ↦ inr (inl (rw other at below))
      | inl mismatch ↦ elim (Bool-cases (is_below x.0 path)) [
        | inl here ↦ inr (inr (inl (mismatch, here)))
        | inr elsewhere ↦ inr (inl (ground arith))
      ]
    ]

without_below-Fares :
    (skipped : List Bytes) (plan : Plan) (x : Bytes × MergeEntry)
    → Some (λ item. item ≡ x) plan
    → Fares skipped (without_below skipped plan) x
unfolding without_below
without_below-Fares skipped [] x h = absurd h
without_below-Fares skipped ((path, entry) ∷ plan) x h =
    elim (Bool-cases (any (λ root. is_below path root) skipped)) [
      | inl dropped ↦ rw dropped (if_dropped h dropped (without_below-Fares skipped plan x))
      | inr kept ↦ rw kept (
          if_kept h (
            without_below-Fares (if is_kind_mismatch entry then path ∷ skipped else skipped) plan
              x))
    ]
  where
    if_dropped :
        ((path, entry) ≡ x) ⊎ Some (λ (item : Bytes × MergeEntry). item ≡ x) plan
        → any (λ root. is_below path root) skipped ≡ true
        → (Some (λ (item : Bytes × MergeEntry). item ≡ x) plan
            → Fares skipped (without_below skipped plan) x)
        → Fares skipped (without_below skipped plan) x
    if_dropped (inl here) dropped later =
        let e : path ≡ x.0 = ap (λ (item : Bytes × MergeEntry). item.0) here in
        inr (inl (rw (← e) dropped))
    if_dropped (inr there) dropped later = later there

    if_kept :
        ((path, entry) ≡ x) ⊎ Some (λ (item : Bytes × MergeEntry). item ≡ x) plan
        → (Some (λ (item : Bytes × MergeEntry). item ≡ x) plan
            → Fares
                (if is_kind_mismatch entry then path ∷ skipped else skipped)
                (without_below (if is_kind_mismatch entry then path ∷ skipped else skipped) plan)
                x)
        → Fares skipped
            ((path, entry)
              ∷ without_below (if is_kind_mismatch entry then path ∷ skipped else skipped) plan)
            x
    if_kept (inl here) later = inl (inl here)
    if_kept (inr there) later = Fares-cons skipped path entry _ x (later there)

Some-named :
    (name : Bytes) (names : List Bytes)
    → Some (λ other. other ≡ name) names
    → Some
        (λ (item : Bytes × MergeEntry). item ≡ (name, not_found))
        (map (λ (other : Bytes). (other, not_found)) names)
Some-named name [] h = absurd h
Some-named name (other ∷ names) (inl e) = inl (ap (λ (n : Bytes). (n, not_found)) e)
Some-named name (other ∷ names) (inr h) = inr (Some-named name names h)

filter-kept :
    (test : Bytes → Bool) (name : Bytes) (names : List Bytes)
    → test name ≡ true
    → filter test (name ∷ names) ≡ name ∷ filter test names
filter-kept test name names h = rw (filter, h)

filter-dropped :
    (test : Bytes → Bool) (name : Bytes) (names : List Bytes)
    → test name ≡ false
    → filter test (name ∷ names) ≡ filter test names
filter-dropped test name names h = rw (filter, h)

filter-Some :
    (test : Bytes → Bool) (names : List Bytes)
    → All (λ name. test name ≡ true → Some (λ other. other ≡ name) (filter test names)) names
filter-Some test [] = tt
filter-Some test (name ∷ names) = elim (Bool-cases (test name)) [
  | inl passes ↦ (
    λ h. rw (filter-kept test name names passes) (inl refl),
    All-map _ _ (λ other there h. rw (filter-kept test name names passes) (inr (there h))) names
        (filter-Some test names),
  )
  | inr fails ↦ (
    λ h. absurd (ground arith),
    All-map _ _ (λ other there h. rw (filter-dropped test name names fails) (there h)) names
        (filter-Some test names),
  )
]

module _ (paths : Comparisons) (targets : MergeTargets) (options : PlanOptions) where
  cons_entry-Some :
      (P : Bytes × MergeEntry → Type 0) (path : Bytes) (o : Option MergeEntry) (plan : Plan)
      → Some P plan
      → Some P (cons_entry paths targets options path o plan)
  cons_entry-Some P path none plan h = h
  cons_entry-Some P path (some entry) plan h = inr h

  entries-Some :
      (rest : Comparisons)
      → All
          (λ item.
            (entry : MergeEntry)
            → entry_of_path paths targets options item.0 item.1 ≡ some entry
            → Some (λ other. other ≡ (item.0, entry)) (entries paths targets options rest))
          rest
  unfolding entries
  entries-Some [] = tt
  entries-Some ((path, c) ∷ rest) = (
    λ entry e. rw e (inl refl),
    All-map _ _
        (λ item there entry e.
          cons_entry-Some _ path (entry_of_path paths targets options path c) _ (there entry e))
        rest (entries-Some rest),
  )

  -- The plan stands in the order of the paths. Every name that the command was given and that
  -- neither side has is in it as not found. Every path compared that the loop makes an entry of is
  -- in it with that entry, or lies below a path of the plan that is skipped for its kind.
  pub merge_plan_complete :
      InOrder (merge_plan paths targets options)
      × All
          (λ name.
            is_missing paths options name ≡ true
            → Some (λ item. item ≡ (name, not_found)) (merge_plan paths targets options))
          targets.named
      × All
          (λ item.
            (entry : MergeEntry)
            → entry_of_path paths targets options item.0 item.1 ≡ some entry
            → Some (λ other. other ≡ (item.0, entry)) (merge_plan paths targets options)
              ⊎ Some (SkippedAbove item.0) (merge_plan paths targets options))
          paths
  unfolding merge_plan without_skipped_subtrees missing
  merge_plan_complete =
      let kept = without_below [] (entries paths targets options paths) in
      let named =
        map (λ (name : Bytes). (name, not_found))
          (filter (is_missing paths options) targets.named) in
      (
        sort_by_path-InOrder (kept ++ named),
        All-map _ _
            (λ name there h.
              sort_by_path-Some _ (kept ++ named)
                (Some-append_right _ kept named (Some-named name _ (there h))))
            targets.named (filter-Some (is_missing paths options) targets.named),
        All-map _ _
            (λ item there entry e.
              settle (item.0, entry) kept named
                (without_below-Fares [] (entries paths targets options paths) (item.0, entry)
                  (there entry e)))
            paths (entries-Some paths),
      )
    where
      settle :
          (x : Bytes × MergeEntry) (kept named : Plan)
          → Fares [] kept x
          → Some (λ (other : Bytes × MergeEntry). other ≡ x) (sort_by_path (kept ++ named))
            ⊎ Some (SkippedAbove x.0) (sort_by_path (kept ++ named))
      settle x kept named (inl there) =
          inl (sort_by_path-Some _ (kept ++ named) (Some-append_left _ kept named there))
      settle x kept named (inr (inl never)) = absurd (ground arith)
      settle x kept named (inr (inr above)) =
          inr (sort_by_path-Some _ (kept ++ named) (Some-append_left _ kept named above))
