-- ===== src/Treat/Rollback/Restored.antt =====
-- A rollback restores a file only where nothing has moved since the backup, and only where no path
-- of the session stops it.
use remote_merge.Prelude.{
  String, ◌++◌, List, [], ◌∷◌, map, Option, none, some, All, All₂, nat_eq, list_eq, ◌≡◌, ◌≢◌, ◌↔◌,
  ◌⊎◌, inl, inr, refl, ap, arith,
}
use remote_merge.Text.{Bytes}
use remote_merge.Treat.Rollback.Harmless.{
  Unmoved, Harmless, Settled-Harmless, Harmless-Settled, judge-Unmoved, Unmoved-judge,
}
use remote_merge.Treat.Rollback.{
  Recorded, TargetFacts, RestoreEntry, Judged, restore, skip, fail, entry, blocks, link_update,
  replaced_link, judge, Session, first_unresolvable, first_blocking, entry_for, judge_all,
  rollback_plan,
}

abbrev pub HarmlessItem : Bytes × Recorded × TargetFacts → Type 0
HarmlessItem item = Harmless item.1 item.2

Judged-cases :
    (j : Judged)
    → ((e : RestoreEntry) × (j ≡ entry e))
      ⊎ ((reason : String) × (j ≡ blocks reason))
      ⊎ ((cause : String) × (j ≡ Judged.unresolvable cause))
Judged-cases (entry e) = inl (e, refl)
Judged-cases (blocks reason) = inr (inl (reason, refl))
Judged-cases (Judged.unresolvable cause) = inr (inr (cause, refl))

nothing_stops :
    (paths : Session)
    → first_unresolvable (judge_all paths) ≡ none
    → first_blocking (judge_all paths) ≡ none
    → All HarmlessItem paths
unfolding judge_all first_unresolvable first_blocking
nothing_stops [] u b = tt
nothing_stops ((path, r, f) ∷ rest) u b = elim (Judged-cases (judge r f)) [
  | inl (e, p) ↦
      (Settled-Harmless path r f (e, p), nothing_stops rest (ground arith) (ground arith))
  | inr (inl (reason, p)) ↦ absurd (ground arith)
  | inr (inr (cause, p)) ↦ absurd (ground arith)
]

stops_nothing :
    (paths : Session)
    → All HarmlessItem paths
    → (first_unresolvable (judge_all paths) ≡ none) × (first_blocking (judge_all paths) ≡ none)
unfolding judge_all first_unresolvable first_blocking
stops_nothing [] h = (refl, refl)
stops_nothing ((path, r, f) ∷ rest) (harmless, h) =
    let (e, p) = Harmless-Settled path harmless in
    let (u, b) = stops_nothing rest h in (ground arith, ground arith)

entry_for-restore :
    (j : Judged) (u b : Option String)
    → entry_for j u b ≡ restore
    → (j ≡ entry restore) × (u ≡ none) × (b ≡ none)
unfolding entry_for
entry_for-restore (Judged.unresolvable c) u b h = absurd (ground arith)
entry_for-restore (blocks r) none b h = absurd (ground arith)
entry_for-restore (blocks r) (some c) b h = absurd (ground arith)
entry_for-restore (entry restore) none none h = (refl, refl, refl)
entry_for-restore (entry restore) none (some r) h = absurd (ground arith)
entry_for-restore (entry restore) (some c) b h = absurd (ground arith)
entry_for-restore (entry (skip t)) none b h = absurd (ground arith)
entry_for-restore (entry (skip t)) (some c) b h = absurd (ground arith)
entry_for-restore (entry (fail t)) none b h = absurd (ground arith)
entry_for-restore (entry (fail t)) (some c) b h = absurd (ground arith)

-- What the plan says of a path of the session `whole`.
abbrev pub RestoredWhere : Session → Bytes × Recorded × TargetFacts → Bytes × RestoreEntry → Type 0
RestoredWhere whole item planned =
    (planned.0 ≡ item.0)
    × ((planned.1 ≡ restore) ↔ (Unmoved item.1 item.2 × All HarmlessItem whole))

module _ (whole : Session) where
  plan_item : Bytes × Recorded × TargetFacts → Bytes × RestoreEntry
  plan_item item = (
    item.0,
    entry_for (judge item.1 item.2) (first_unresolvable (judge_all whole))
        (first_blocking (judge_all whole)),
  )

  plan_item-RestoredWhere :
      (item : Bytes × Recorded × TargetFacts) → RestoredWhere whole item (plan_item item)
  unfolding plan_item entry_for
  plan_item-RestoredWhere (path, r, f) = (
    refl,
    (
      (λ h.
          let (own, u, b) =
            entry_for-restore (judge r f) (first_unresolvable (judge_all whole))
              (first_blocking (judge_all whole)) h in
          (judge-Unmoved r f own, nothing_stops whole u b)),
      (λ (unmoved, harmless).
          let (u, b) = stops_nothing whole harmless in rw (Unmoved-judge unmoved, u, b)),
    ),
  )

  plan_items-RestoredWhere :
      (items : Session) → All₂ (RestoredWhere whole) items (map plan_item items)
  plan_items-RestoredWhere [] = tt
  plan_items-RestoredWhere (item ∷ items) =
      (plan_item-RestoredWhere item, plan_items-RestoredWhere items)

plan_items-eq :
    (whole items : Session)
    → map
        (λ (item : Bytes × Judged). (
          item.0,
          entry_for item.1
              (first_unresolvable (judge_all whole))
              (first_blocking (judge_all whole)),
        ))
        (judge_all items)
      ≡ map (plan_item whole) items
unfolding judge_all plan_item
plan_items-eq whole [] = refl
plan_items-eq whole (item ∷ items) =
    ap (λ (l : List (Bytes × RestoreEntry)). plan_item whole item ∷ l) (plan_items-eq whole items)

-- The plan names the paths of the session in its order. It restores one exactly when what its
-- record was made from stands where it stood and every record of the session is harmless. A
-- record is harmless if what it was made from stands where it stood; or if it is of a link that the
-- merge removed or replaced by a file, which is never restored, whatever stands there now; or if it
-- is of a file in whose place there is a directory, something else that is neither a file nor a
-- link, a name that can not be read, or nothing, its directory being gone. With any other record in
-- the session nothing is restored, such as a file or a written link whose path can not be resolved,
-- a file in whose place there is a link, or a written link that has another target now.
pub rollback_plan-restore :
    (paths : Session) → All₂ (RestoredWhere paths) paths (rollback_plan paths)
unfolding rollback_plan
rollback_plan-restore paths = rw (plan_items-eq paths paths) (plan_items-RestoredWhere paths paths)

-- The entry is a failure.
abbrev pub Fails : Bytes × RestoreEntry → Type 0
Fails planned = (text : String) × (planned.1 ≡ fail text)

entry_for-unresolvable :
    (j : Judged) (cause : String) (b : Option String)
    → (text : String) × (entry_for j (some cause) b ≡ fail text)
unfolding entry_for
entry_for-unresolvable (Judged.unresolvable c) cause b = (_, refl)
entry_for-unresolvable (blocks r) cause b = (_, refl)
entry_for-unresolvable (entry e) cause b = (_, refl)

judge-unresolvable :
    (record' : Recorded) (cause : String)
    → record' ≢ replaced_link
    → judge record' (TargetFacts.unresolvable cause) ≡ Judged.unresolvable cause
unfolding judge
judge-unresolvable (Recorded.file p) cause h = refl
judge-unresolvable (link_update t p) cause h = refl
judge-unresolvable replaced_link cause h = absurd (h refl)

module _ (path : Bytes) (record' : Recorded) (cause : String) (restorable : record' ≢ replaced_link)
    (behind : Session) where
  abbrev pub lost : Session → Session
  lost front = front ++ (path, record', TargetFacts.unresolvable cause) ∷ behind

  first_unresolvable-some :
      (front : Session)
      → (found : String) × (first_unresolvable (judge_all (lost front)) ≡ some found)
  unfolding judge_all first_unresolvable
  first_unresolvable-some [] = (cause, ground (arith, judge-unresolvable record' cause restorable))
  first_unresolvable-some ((p, r, f) ∷ front) =
      let (found, e) = first_unresolvable-some front in
      elim (Judged-cases (judge r f)) [
        | inl (x, q) ↦ (found, ground arith)
        | inr (inl (reason, q)) ↦ (found, ground arith)
        | inr (inr (other, q)) ↦ (other, ground arith)
      ]

  -- Where a path of the session cannot be resolved and its record could be restored, every path of
  -- the session fails: nothing is restored.
  pub rollback_plan-unresolvable : (front : Session) → All Fails (rollback_plan (lost front))
  unfolding rollback_plan
  rollback_plan-unresolvable front =
      let (found, e) = first_unresolvable-some front in fail_all found e (judge_all (lost front))
    where
      fail_all :
          (found : String)
          → first_unresolvable (judge_all (lost front)) ≡ some found
          → (judged : List (Bytes × Judged))
          → All Fails (
              map
                (λ (item : Bytes × Judged). (
                  item.0,
                  entry_for item.1
                      (first_unresolvable (judge_all (lost front)))
                      (first_blocking (judge_all (lost front))),
                ))
                judged)
      fail_all found e [] = tt
      fail_all found e ((p, j) ∷ rest) = (
        rw e (entry_for-unresolvable j found (first_blocking (judge_all (lost front)))),
        fail_all found e rest,
      )
