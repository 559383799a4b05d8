-- ===== src/Treat/Sync/Outcome.antt =====
-- A plan with nothing to sync ends well.
use remote_merge.Prelude.{Bool, true, false, List, [], ◌∷◌, ◌++◌, any, ◌≢◌, ◌≡◌, refl, arith}
use remote_merge.Treat.Merge.{
  skip, Plan, counts_as_failure, skip_reasons, exit_code, success, error,
}
use remote_merge.Text.{Bytes}
use remote_merge.Treat.Results.{Outcome, TargetLists, target_lists}
use remote_merge.Treat.Results.Once.{Failing, target_lists-failed}
use remote_merge.Treat.Sync.{
  nothing_to_do, nothing_to_sync, SyncTargetStatus, target_status, succeeded, all_succeeded,
  sync_exit_code, status_of_target,
}

nothing-skip_reasons :
    (plan : Plan)
    → nothing_to_sync plan ≡ true
    → any (λ reason. counts_as_failure reason) (skip_reasons plan) ≡ false
unfolding nothing_to_sync nothing_to_do skip_reasons
nothing-skip_reasons [] h = refl
nothing-skip_reasons ((p, skip reason) ∷ plan) h = ground (arith, nothing-skip_reasons plan)
nothing-skip_reasons ((p, e) ∷ plan) h = nothing-skip_reasons plan (ground arith)

-- Where a plan has nothing to sync and the run neither failed on a file nor was stopped, the
-- destination counts as a success and merge exits with success.
pub nothing_to_sync-status_of_target :
    (plan : Plan) (lists : TargetLists)
    → nothing_to_sync plan ≡ true
    → lists.failed ≡ []
    → (status_of_target lists plan false ≡ SyncTargetStatus.success)
      × (exit_code false (skip_reasons plan) ≡ success)
unfolding status_of_target exit_code
nothing_to_sync-status_of_target plan lists h f =
    let fine = nothing-skip_reasons plan h in (ground arith, ground arith)

all_succeeded-other :
    (front rest : List SyncTargetStatus) (status : SyncTargetStatus)
    → succeeded status ≡ false
    → all_succeeded (front ++ status ∷ rest) ≡ false
unfolding all_succeeded
all_succeeded-other [] rest status h = ground arith
all_succeeded-other (s ∷ front) rest status h =
    ground (arith, all_succeeded-other front rest status h)

-- A path that fails on one destination is never hidden: the destination does not count as a
-- success, and sync as a whole ends with an error, whatever the other destinations did.
pub target_lists-sync_exit_code :
    (outcomes : List (Bytes × Outcome)) (plan : Plan) (stopped : Bool)
    (front rest : List SyncTargetStatus)
    → Failing outcomes
    → (status_of_target (target_lists outcomes) plan stopped ≢ SyncTargetStatus.success)
      × (sync_exit_code (front ++ status_of_target (target_lists outcomes) plan stopped ∷ rest)
          ≡ error)
unfolding status_of_target target_status sync_exit_code succeeded
target_lists-sync_exit_code outcomes plan stopped front rest h =
    let listed = target_lists-failed outcomes h in
    let status = status_of_target (target_lists outcomes) plan stopped in
    let bad : succeeded status ≡ false = ground arith in
    (ground arith, let all = all_succeeded-other front rest status bad in ground arith)
