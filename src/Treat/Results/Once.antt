-- ===== src/Treat/Results/Once.antt =====
-- Every outcome stands in one of the lists.
use remote_merge.Prelude.{
  ℕ, suc, ◌+◌, Bool, true, false, List, [], ◌∷◌, ◌++◌, length, length-append, Some, ◌≡◌, ◌⊎◌, inl,
  inr, refl, ap, ◌∙◌, arith, Bool-cases,
}
use remote_merge.Text.{Bytes, is_empty, at_most}
use remote_merge.Treat.Results.{
  Outcome, merged, would_merge, deleted, would_delete, skipped, failed, failed_after_change,
  TargetLists, place_outcome, sort_outcomes, put_outcome, put_outcomes, target_lists,
}

abbrev pub result_count : TargetLists → ℕ
result_count lists =
    length lists.merged + length lists.skipped + length lists.deleted + length lists.failed

place_outcome-length :
    (item : Bytes × Outcome) (items : List (Bytes × Outcome))
    → length (place_outcome item items) ≡ suc (length items)
unfolding place_outcome
place_outcome-length item [] = refl
place_outcome-length item (next ∷ items) = elim (Bool-cases (at_most item.0 next.0)) [
  | inl e ↦ rw e refl
  | inr e ↦ rw e (ap suc (place_outcome-length item items))
]

sort_outcomes-length :
    (items : List (Bytes × Outcome)) → length (sort_outcomes items) ≡ length items
unfolding sort_outcomes
sort_outcomes-length [] = refl
sort_outcomes-length (item ∷ items) =
    place_outcome-length item (sort_outcomes items) ∙ ap suc (sort_outcomes-length items)

put_outcome-count :
    (path : Bytes) (outcome : Outcome) (lists : TargetLists)
    → result_count (put_outcome path outcome lists) ≡ suc (result_count lists)
unfolding put_outcome
put_outcome-count path (merged b r) lists = omega (arith, length-append lists.merged (_ ∷ []))
put_outcome-count path (would_merge r) lists = omega (arith, length-append lists.merged (_ ∷ []))
put_outcome-count path (deleted b) lists = omega (arith, length-append lists.deleted (_ ∷ []))
put_outcome-count path would_delete lists = omega (arith, length-append lists.deleted (_ ∷ []))
put_outcome-count path (skipped r) lists = omega (arith, length-append lists.skipped (_ ∷ []))
put_outcome-count path (failed e) lists = omega (arith, length-append lists.failed (_ ∷ []))
put_outcome-count path (failed_after_change e) lists =
    omega (arith, length-append lists.failed (_ ∷ []))

put_outcomes-count :
    (items : List (Bytes × Outcome)) (lists : TargetLists)
    → result_count (put_outcomes items lists) ≡ result_count lists + length items
unfolding put_outcomes
put_outcomes-count [] lists = omega arith
put_outcomes-count ((path, outcome) ∷ items) lists = omega (
  arith,
  put_outcomes-count items (put_outcome path outcome lists),
  put_outcome-count path outcome lists,
)

-- Every path stands in exactly one of the lists: there are as many results as outcomes.
pub target_lists-count :
    (outcomes : List (Bytes × Outcome)) → result_count (target_lists outcomes) ≡ length outcomes
unfolding target_lists
target_lists-count outcomes = omega (
  arith,
  put_outcomes-count (sort_outcomes outcomes)
      (record { merged = []; skipped = []; deleted = []; failed = []; changed_but_failed = false }),
  sort_outcomes-length outcomes,
)

abbrev pub is_failure : Outcome → Bool
is_failure (failed error) = true
is_failure (failed_after_change error) = true
is_failure _ = false

some_more : {A : Type 0} (xs : List A) (x : A) → is_empty (xs ++ x ∷ []) ≡ false
some_more [] x = refl
some_more (y ∷ ys) x = refl

put_outcome-failed :
    (path : Bytes) (outcome : Outcome) (lists : TargetLists)
    → (is_failure outcome ≡ true) ⊎ (is_empty lists.failed ≡ false)
    → is_empty (put_outcome path outcome lists).failed ≡ false
unfolding put_outcome
put_outcome-failed path (failed error) lists h = some_more lists.failed _
put_outcome-failed path (failed_after_change error) lists h = some_more lists.failed _
put_outcome-failed path (merged b r) lists h = ground arith
put_outcome-failed path (would_merge r) lists h = ground arith
put_outcome-failed path (deleted b) lists h = ground arith
put_outcome-failed path would_delete lists h = ground arith
put_outcome-failed path (skipped r) lists h = ground arith

abbrev pub Failing : List (Bytes × Outcome) → Type 0
Failing outcomes = Some (λ (item : Bytes × Outcome). is_failure item.1 ≡ true) outcomes

put_outcomes-failed :
    (items : List (Bytes × Outcome)) (lists : TargetLists)
    → Failing items ⊎ (is_empty lists.failed ≡ false)
    → is_empty (put_outcomes items lists).failed ≡ false
unfolding put_outcomes
put_outcomes-failed [] lists (inl h) = absurd h
put_outcomes-failed [] lists (inr h) = h
put_outcomes-failed ((path, outcome) ∷ items) lists (inl (inl h)) =
    put_outcomes-failed items (put_outcome path outcome lists)
      (inr (put_outcome-failed path outcome lists (inl h)))
put_outcomes-failed ((path, outcome) ∷ items) lists (inl (inr h)) =
    put_outcomes-failed items (put_outcome path outcome lists) (inl h)
put_outcomes-failed ((path, outcome) ∷ items) lists (inr h) =
    put_outcomes-failed items (put_outcome path outcome lists)
      (inr (put_outcome-failed path outcome lists (inr h)))

place_outcome-Failing :
    (item : Bytes × Outcome) (items : List (Bytes × Outcome))
    → (is_failure item.1 ≡ true) ⊎ Failing items
    → Failing (place_outcome item items)
unfolding place_outcome
place_outcome-Failing item [] h = h
place_outcome-Failing item (next ∷ items) h = elim (Bool-cases (at_most item.0 next.0)) [
  | inl e ↦ rw e h
  | inr e ↦ rw e (elim h [
    | inl f ↦ inr (place_outcome-Failing item items (inl f))
    | inr g ↦ elim g [ inl f ↦ inl f | inr f ↦ inr (place_outcome-Failing item items (inr f)) ]
  ])
]

sort_outcomes-Failing :
    (items : List (Bytes × Outcome)) → Failing items → Failing (sort_outcomes items)
unfolding sort_outcomes
sort_outcomes-Failing [] h = h
sort_outcomes-Failing (item ∷ items) h =
    place_outcome-Failing item (sort_outcomes items)
      (elim h [ inl e ↦ inl e | inr f ↦ inr (sort_outcomes-Failing items f) ])

-- An outcome that failed is on the list of failures.
pub target_lists-failed :
    (outcomes : List (Bytes × Outcome))
    → Failing outcomes
    → is_empty (target_lists outcomes).failed ≡ false
unfolding target_lists
target_lists-failed outcomes h =
    put_outcomes-failed (sort_outcomes outcomes) _ (inl (sort_outcomes-Failing outcomes h))
